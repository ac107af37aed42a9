-- ===== src/Tests/Failures.antt =====
-- The theorem about writes that fail, at a write of three bytes.
use torii_db.Base.{◌<◌, [], ◌∷◌, arith, codes, pos, none, true, false, refl, ◌⊎◌}
use torii_db.Samples.Marked.{
  encode_marked, marked, marked-CodecLaws, marked-CutLaws, marked-Base64Laws,
}
use torii_db.Store.Db.{Db, name_limit, Io}
use torii_db.Store.Durable.Atomic.{set-Reloads}
use torii_db.Store.Durable.Crash.{Reloads}
use torii_db.Store.Durable.History.{Run, Run-IsSafe, begins, goes, sets, new_db}
use torii_db.Store.Durable.Ready.{IsHealthy}
use torii_db.Store.Load.{Reads}
use torii_db.Store.Set.{set, set_default, set_nx}
use torii_db.Tests.{runs, io, age, size}

healthy : IsHealthy io
healthy = record {
  dirs = refl;
  opens = refl;
  writes = refl;
  syncs = refl;
  temps = refl;
  renames = refl;
  dir_syncs = refl;
  nexts = refl;
}

abbrev first_db : Db
first_db = (set marked io (pos 10) age (codes "5") set_nx none new_db).0

first_db-Run : Run marked (pos 101) first_db
first_db-Run =
    goes {before = pos 100} (begins (pos 100)) (omega arith)
      (sets io (pos 10) age (codes "5") set_nx none healthy (omega arith) refl refl)

-- Three bytes of the record reach the log.
abbrev full_disk : Io
full_disk = record io { write_ok = false; written = 3 }

abbrev readable : Reads
readable = record { snap_ok = λ n. true; log_ok = λ n. true }

abbrev failed_db : Db
failed_db = (set marked full_disk (pos 11) size (codes "{}") set_default none first_db).0

first_db-named : first_db.num < name_limit
unfolding runs encode_marked
first_db-named = omega arith

set-Reloads_example :
    Reloads marked readable
      (pos 101)
      (record failed_db.disk { temps = (1, age) ∷ [] })
      first_db.entries
    ⊎ Reloads marked readable
        (pos 101)
        (record failed_db.disk { temps = (1, age) ∷ [] })
        failed_db.entries
set-Reloads_example =
    set-Reloads marked marked-CodecLaws marked-Base64Laws marked-CutLaws (pos 101) readable
      ((1, age) ∷ []) (λ k. refl) (λ k. refl) full_disk (pos 11) size (codes "{}") set_default none
      first_db (omega arith) refl refl first_db-named
      (Run-IsSafe marked marked-CodecLaws marked-Base64Laws first_db-Run)
