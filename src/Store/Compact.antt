-- ===== src/Store/Compact.antt =====
-- Snapshots and compaction (`serialize` and `compact` of core/store/aof.go) and the removal of old
-- files (core/store/gc.go).
pub mod Sweep
use torii_db.Base.{
  ℕ, ◌+◌, ℤ, Text, codes, Bool, not, ◌&&◌, Option, none, some, List, [], ◌∷◌, ◌++◌, is_empty,
  length, ◌&&◌, ltb, leb, if◌then◌else◌,
}
use torii_db.External.{External}
use torii_db.Record.{Record}
use torii_db.Store.Entry.{Entry, is_expired}
use torii_db.Store.Vector.{encode_vector}
use torii_db.Store.Db.{
  name_limit, Files, file_put, file_remove, file_get, text_of, Disk, Db, Io, Outcome,
  snapshot_failed, rename_failed, sync_dir_failed, replay_failed, open_failed,
}

-- A vector as a record carries it: none if it is empty.
unfoldable pub record_vector : External → List ℕ → Option Text
record_vector ext [] = none
record_vector ext (v ∷ vec) = some (encode_vector ext (v ∷ vec))

unfoldable pub entry_record : External → Entry → Record
entry_record ext e = record {
  timestamp = e.created_at;
  command = codes "SET";
  key = e.key;
  value = e.value;
  expire_at = e.expire_at;
  vector = record_vector ext e.vector;
}

-- A record and the newline behind it.
unfoldable pub encode_line : External → Record → Text
encode_line ext r = ext.encode_record r ++ (10 ∷ [])

-- The live entries, a line each. A Go map is read in any order; the model reads it as it lists it.
unfoldable pub serialize : External → ℤ → List (Text × Entry) → Text
serialize ext now [] = []
serialize ext now ((k, e) ∷ m) =
    let rest = serialize ext now m in
    if is_expired e now then rest else encode_line ext (entry_record ext e) ++ rest

-- The snapshot is in place: the next log is opened and becomes the current one.
unfoldable pub open_next_log : Io → Text → Db → Outcome
open_next_log io buf d =
    if io.next_ok
    then (
      record d {
        disk = record d.disk {
          logs = file_put (d.num + 1) (text_of (file_get (d.num + 1) d.disk.logs)) d.disk.logs;
        };
        aof = some (d.num + 1);
        num = d.num + 1;
        log_size = 0;
        snap_size = length buf;
      },
      none,
    )
    else (d, some open_failed)

-- The temporary file takes the name of the snapshot.
unfoldable pub rename_snapshot : Text → Db → Db
rename_snapshot buf d = record d {
  disk = record d.disk {
    snaps = file_put d.num buf d.disk.snaps;
    temps = file_remove d.num d.disk.temps;
  };
}

unfoldable pub remove_temp : Db → Db
remove_temp d = record d { disk = record d.disk { temps = file_remove d.num d.disk.temps } }

unfoldable pub write_temp : Text → Db → Db
write_temp buf d = record d { disk = record d.disk { temps = file_put d.num buf d.disk.temps } }

unfoldable pub compact : External → Io → Db → Outcome
compact ext io d =
    let buf = serialize ext io.sweep d.entries in
    if d.load_err
    then (d, some replay_failed)
    else if is_empty d.entries && not d.disk.dir
    then (d, none)
    else if not io.temp_ok
    then (remove_temp d, some snapshot_failed)
    else if not io.rename_ok
    then (remove_temp (write_temp buf d), some rename_failed)
    else if not io.sync_dir_ok
    then (rename_snapshot buf (write_temp buf d), some sync_dir_failed)
    else open_next_log io buf (rename_snapshot buf (write_temp buf d))

-- The files that `gcOlderThan(dir, keep)` removes: `num < keep-1` among the snapshots, and
-- `num <= keep-1` among the logs, if `parseName` reads their names.
unfoldable pub is_old_snap : ℕ → ℕ → Bool
is_old_snap keep num = ltb num name_limit && ltb (num + 1) keep

unfoldable pub is_old_log : ℕ → ℕ → Bool
is_old_log keep num = ltb num name_limit && leb (num + 1) keep

unfoldable pub sweep_files : (ℕ → Bool) → Files → Files
sweep_files old [] = []
sweep_files old ((n, text) ∷ fs) =
    let rest = sweep_files old fs in if old n then rest else (n, text) ∷ rest

unfoldable pub gc_older_than : ℕ → Disk → Disk
gc_older_than keep disk = record disk {
  snaps = sweep_files (is_old_snap keep) disk.snaps;
  logs = sweep_files (is_old_log keep) disk.logs;
}
