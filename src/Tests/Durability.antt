-- ===== src/Tests/Durability.antt =====
-- The theorems about the log, snapshots and loading, at a database that two SETs have filled.
use mathlib.Core.Option.{some-injective}
use torii_db.Base.{
  Dict, [], arith, codes, inl, none, pos, refl, some, true, ◌∷◌, ◌++◌, ◌≡◌, ◌+◌, ℤ, ◌≤◌, ◌<◌, false,
}
use torii_db.Samples.{sample, sample-Base64Laws, sample-CodecLaws}
use torii_db.Samples.Codec.{decode_record}
use torii_db.Store.Close.{close_db, release}
use torii_db.Store.Compact.{encode_line, compact, serialize, gc_older_than}
use torii_db.Store.Compact.Sweep.{gc_older_than-exact}
use torii_db.Store.Core.{unloaded}
use torii_db.Store.Db.{Db, name_limit, file_get, text_of, Io}
use torii_db.Store.Del.{del, del_field, del_parsed, store_parsed}
use torii_db.Store.Durable.{IsDurable, log_text, Agree}
use torii_db.Store.Durable.Commands.{set-IsDurable}
use torii_db.Store.Durable.Crash.{Reloads, compact-Reloads}
use torii_db.Store.Durable.Fields.{MarshalLaws}
use torii_db.Store.Durable.History.{
  Run, Run-load_all, begins, goes, sets, dels, closes, new_db, Run-IsSafe, dels_field, sets_field,
}
use torii_db.Store.Durable.Invariant.{IsWell, set-IsWell}
use torii_db.Store.Durable.Ready.{IsHealthy}
use torii_db.Store.Durable.Restart.{load_all-HoldsFrom, load_all-IsDurable, IsLoaded, replay_texts}
use torii_db.Store.Durable.Snapshot.{serialize-Agree, compact-IsDurable}
use torii_db.Store.Durable.Torn.{replay_text-torn}
use torii_db.Store.Durable.Parsed.{AllParsed, Restored}
use torii_db.Store.Entry.{Entry, detect_type, set_parsed}
use torii_db.Utils.{atov}
use torii_db.Store.Load.{load_all, load_all-total, Reads}
use torii_db.Store.Replay.{apply_lines, lines_of, replay_text}
use torii_db.Store.Set.{set_default, set_nx, set}
use torii_db.Store.SetField.{
  set_field, write_field, log_field, update_field, store_field, target_of,
}
use torii_db.Tests.{runs, io, empty_db, age, size, one_db, two_db, del_record, old_files}

empty-IsDurable : (now : ℤ) → IsDurable sample now [] empty_db
unfolding replay_text lines_of file_get apply_lines
empty-IsDurable now = record { whole = refl; agree = λ k. inl refl }

one-IsDurable : (now : ℤ) → IsDurable sample now [] one_db
unfolding runs
one-IsDurable now =
    set-IsDurable sample sample-CodecLaws now [] io (pos 10) age (codes "5") set_nx none empty_db
      refl refl (empty-IsDurable now) refl refl

two-IsDurable : (now : ℤ) → IsDurable sample now [] two_db
unfolding runs
two-IsDurable now =
    set-IsDurable sample sample-CodecLaws now [] io (pos 11) size (codes "{}") set_default
      (some (pos 50)) one_db refl refl (one-IsDurable now) refl refl

load_all-total_example :
    (d : Db) × (load_all sample (record { snap_ok = λ n. true; log_ok = λ n. true }) two_db
      ≡ some d)
load_all-total_example =
    load_all-total sample (record { snap_ok = λ n. true; log_ok = λ n. true }) two_db

one-IsWell : IsWell sample one_db.entries
unfolding runs
one-IsWell =
    set-IsWell sample sample-CodecLaws io (pos 10) age (codes "5") set_nx none empty_db refl refl
      (record { nodup = tt; stored = tt })

two-IsWell : IsWell sample two_db.entries
unfolding runs
two-IsWell =
    set-IsWell sample sample-CodecLaws io (pos 11) size (codes "{}") set_default (some (pos 50))
      one_db refl refl one-IsWell

serialize-Agree_example :
    Agree (pos 60) (replay_text sample (serialize sample (pos 55) two_db.entries) []) two_db.entries
serialize-Agree_example =
    serialize-Agree sample (pos 55) (pos 60) two_db.entries sample-CodecLaws sample-Base64Laws
      two-IsWell.nodup two-IsWell.stored (omega arith)

abbrev packed_db : Db
packed_db = (compact sample io two_db).0

abbrev packed_base : Dict Entry
packed_base = replay_text sample (text_of (file_get 1 packed_db.disk.snaps)) []

compact-IsDurable_example :
    IsDurable sample (pos 120) packed_base packed_db
    × AllParsed sample (replay_text sample (log_text packed_db) packed_base)
unfolding runs
compact-IsDurable_example =
    compact-IsDurable sample io (pos 120) two_db sample-CodecLaws sample-Base64Laws two-IsWell.nodup
      two-IsWell.stored (omega arith) refl refl (λ h. omega arith)

abbrev readable : Reads
readable = record { snap_ok = λ n. true; log_ok = λ n. true }

load_all-HoldsFrom_example :
    IsLoaded
      (replay_texts sample (log_text two_db ∷ []) (replay_text sample [] []))
      (load_all sample readable two_db)
unfolding runs
load_all-HoldsFrom_example =
    load_all-HoldsFrom sample readable 0 [] (log_text two_db ∷ []) two_db (λ k. refl) (λ k. refl)
      (refl, refl) (refl, refl)

load_all-IsDurable_example :
    (d : Db) × (load_all sample readable two_db ≡ some d)
    × Restored sample (pos 20) d.entries two_db.entries
unfolding runs
load_all-IsDurable_example =
    load_all-IsDurable sample readable (pos 20) 0 [] two_db (λ k. refl) (λ k. refl) (refl, refl)
      refl refl (two-IsDurable (pos 20))

gc_older_than-exact_example :
    (3 ≤ 2 + 1 → file_get 2 (gc_older_than 3 old_files).snaps ≡ file_get 2 old_files.snaps)
    × (3 ≤ 2 → file_get 2 (gc_older_than 3 old_files).logs ≡ file_get 2 old_files.logs)
    × (2 + 1 < 3 → 2 < name_limit → file_get 2 (gc_older_than 3 old_files).snaps ≡ none)
    × (2 < 3 → 2 < name_limit → file_get 2 (gc_older_than 3 old_files).logs ≡ none)
    × (name_limit ≤ 2
        → (file_get 2 (gc_older_than 3 old_files).snaps ≡ file_get 2 old_files.snaps)
          × (file_get 2 (gc_older_than 3 old_files).logs ≡ file_get 2 old_files.logs))
gc_older_than-exact_example = gc_older_than-exact 3 2 old_files

replay_text-torn_example :
    replay_text sample (log_text one_db ++ ((200 ∷ []) ++ encode_line sample del_record)) []
    ≡ replay_text sample (log_text one_db) []
unfolding runs decode_record
replay_text-torn_example =
    replay_text-torn sample (log_text one_db) (200 ∷ []) del_record [] sample-CodecLaws
      (omega arith, tt) refl refl

healthy : IsHealthy io
healthy = record {
  dirs = refl;
  opens = refl;
  writes = refl;
  syncs = refl;
  temps = refl;
  renames = refl;
  dir_syncs = refl;
  nexts = refl;
}

abbrev one_new : Db
one_new = (set sample io (pos 10) age (codes "5") set_nx none new_db).0

abbrev two_new : Db
two_new = (set sample io (pos 11) size (codes "{}") set_default (some (pos 500)) one_new).0

-- Two SETs, a SETFIELD, a DELFIELD, a Close, and a DEL.
abbrev written_db : Db
written_db =
    (set_field sample io (pos 12) size (age ∷ []) (codes "1") set_default (some (pos 600))
      two_new).0

abbrev field_db : Db
field_db = (del_field sample io (pos 12) size (age ∷ []) written_db).0

abbrev last_db : Db
last_db = (del sample (λ n. io) (age ∷ []) (close_db sample io field_db).0).0

sample-MarshalLaws : MarshalLaws sample
unfolding detect_type
sample-MarshalLaws = record {
  objects =
      λ ms raw e. let same : codes "{}" ≡ raw = some-injective _ _ e in (rw⁻¹ same refl, refl);
}

written_db-Run : Run sample (pos 102) written_db
unfolding runs
written_db-Run =
    goes {before = pos 101}
      (goes {before = pos 101}
        (goes {before = pos 100} (begins (pos 100)) (omega arith)
          (sets io (pos 10) age (codes "5") set_nx none healthy (omega arith) refl refl))
        (omega arith)
        (sets io (pos 11) size (codes "{}") set_default (some (pos 500)) healthy (omega arith) refl
          refl))
      (omega arith)
      (sets_field io (pos 12) size (age ∷ []) (codes "1") set_default (some (pos 600)) healthy
        (omega arith) sample-MarshalLaws refl refl refl)

last_db-Run : Run sample (pos 104) last_db
unfolding runs set_field write_field log_field update_field store_field target_of atov set_parsed
last_db-Run =
    goes {before = pos 103}
      (goes {before = pos 103}
        (goes {before = pos 102} written_db-Run (omega arith) (
          dels_field io (pos 12) size (age ∷ []) healthy (omega arith) sample-MarshalLaws refl
            refl))
        (omega arith) (closes io healthy (omega arith)))
      (omega arith) (dels (λ n. io) (age ∷ []) (λ n. healthy) (λ n. omega arith) (refl, tt))

last_num : last_db.num ≡ 2
unfolding runs set_field write_field log_field update_field store_field target_of atov set_parsed
    close_db del_field del_parsed store_parsed release
last_num = refl

last_db-named : last_db.num < name_limit
last_db-named = omega (arith, last_num)

Run-load_all_example :
    (d : Db) × (load_all sample readable (unloaded last_db.disk) ≡ some d)
    × Restored sample (pos 104) d.entries last_db.entries
Run-load_all_example =
    Run-load_all sample sample-CodecLaws sample-Base64Laws readable (λ k. refl) (λ k. refl)
      last_db-Run (omega (arith, last_db-named))

-- The next log cannot be opened.
abbrev stalled : Io
stalled = record io { next_ok = false }

compact-Reloads_example :
    Reloads sample readable
      (pos 104)
      (record (compact sample stalled last_db).0.disk { temps = (2, age) ∷ [] })
      last_db.entries
compact-Reloads_example =
    compact-Reloads sample sample-CodecLaws sample-Base64Laws (pos 104) stalled last_db
      (omega arith) last_db-named (Run-IsSafe sample sample-CodecLaws sample-Base64Laws last_db-Run)
      readable ((2, age) ∷ []) (λ k. refl) (λ k. refl)
