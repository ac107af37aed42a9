-- ===== src/Store/Aof.antt =====
-- The append log: `init` of core/store/store.go, and `writeAOF` and the calls of it in
-- core/store/aof.go.
use torii_db.Base.{
  ℕ, ◌+◌, ◌*◌, ◌^◌, max, ℤ, Text, Bool, true, not, Option, none, some, List, [], length, take, leb,
  if◌then◌else◌, or_else, ◌≡◌, refl, ◌∙◌, arith,
}
use torii_db.External.{External}
use torii_db.Record.{Record}
use torii_db.Store.Db.{
  Db, Io, Outcome, file_get, file_put, file_append, text_of, check_dir_failed, open_failed,
  write_failed, sync_failed,
}
use torii_db.Store.Compact.{
  record_vector, encode_line, compact, open_next_log, rename_snapshot, remove_temp, write_temp,
}

abbrev pub compact_inflation_ratio : ℕ
compact_inflation_ratio = 2

abbrev pub compact_min_size : ℕ
compact_min_size = 2 ^ 20

unfoldable pub make_dir : Db → Db
make_dir d = record d { disk = record d.disk { dir = true } }

-- An absent log is created empty.
unfoldable pub open_log : Db → Db
open_log d = record d {
  disk = record d.disk { logs = file_put d.num (text_of (file_get d.num d.disk.logs)) d.disk.logs };
  aof = some d.num;
}

-- `init`: opens the current log, if none is open.
unfoldable pub init_log : Io → Db → Outcome
init_log io d = elim d.aof [
  | some n ↦ (d, none)
  | none ↦
      if not io.dir_ok
      then (d, some check_dir_failed)
      else if not io.open_ok
      then (make_dir d, some open_failed)
      else (open_log (make_dir d), none)
]

unfoldable pub append_bytes : Text → Db → Db
append_bytes bytes d = record d {
  disk = record d.disk { logs = file_append (or_else d.aof d.num) bytes d.disk.logs };
}

-- The size at which a write starts a compaction.
abbrev pub needs_compaction : Db → Bool
needs_compaction d = leb (max d.snap_size compact_min_size * compact_inflation_ratio) d.log_size

unfoldable pub append_line : External → Io → Text → Db → Outcome
append_line ext io line d =
    let done = append_bytes line d in
    let written = record done { log_size = d.log_size + length line } in
    if not io.write_ok
    then (append_bytes (take io.written line) d, some write_failed)
    else if not io.sync_ok
    then (written, some sync_failed)
    else if needs_compaction written
    then compact ext io written
    else (written, none)

unfoldable pub after_init : External → Io → Record → Outcome → Outcome
after_init ext io r (d, some err) = (d, some err)
after_init ext io r (d, none) = append_line ext io (encode_line ext r) d

unfoldable pub write_aof : External → Io → Record → Db → Outcome
write_aof ext io r d = after_init ext io r (init_log io d)

unfoldable pub add_to_aof_with_vector :
    External → Io → Text → Text → Text → Option ℤ → List ℕ → Db → Outcome
add_to_aof_with_vector ext io command key value expire_at vec d =
    write_aof ext io
      (record {
        timestamp = io.stamp;
        command = command;
        key = key;
        value = value;
        expire_at = expire_at;
        vector = record_vector ext vec;
      })
      d

unfoldable pub add_to_aof : External → Io → Text → Text → Text → Option ℤ → Db → Outcome
add_to_aof ext io command key value expire_at d =
    add_to_aof_with_vector ext io command key value expire_at [] d

-- A log write, whatever becomes of it, leaves the entries in memory alone.
module _ (ext : External) (io : Io) where
  pub compact-entries : (d : Db) → (compact ext io d).0.entries ≡ d.entries
  unfolding compact open_next_log rename_snapshot remove_temp write_temp
  compact-entries d = ground arith

  append_line-entries : (line : Text) (d : Db) → (append_line ext io line d).0.entries ≡ d.entries
  unfolding append_line append_bytes
  append_line-entries line d =
      let done = append_bytes line d in
      ground (arith, compact-entries (record done { log_size = d.log_size + length line }))

  init_log-entries : (d : Db) → (init_log io d).0.entries ≡ d.entries
  unfolding init_log make_dir open_log
  init_log-entries d = ground arith

  after_init-entries : (r : Record) (o : Outcome) → (after_init ext io r o).0.entries ≡ o.0.entries
  unfolding after_init
  after_init-entries r (d, none) = append_line-entries _ d
  after_init-entries r (d, some err) = refl

  pub write_aof-entries : (r : Record) (d : Db) → (write_aof ext io r d).0.entries ≡ d.entries
  unfolding write_aof
  write_aof-entries r d = after_init-entries r _ ∙ init_log-entries d

  pub add_to_aof-entries :
      (command key value : Text) (expire_at : Option ℤ) (d : Db)
      → (add_to_aof ext io command key value expire_at d).0.entries ≡ d.entries
  unfolding add_to_aof add_to_aof_with_vector
  add_to_aof-entries command key value expire_at d = write_aof-entries _ d
