-- ===== src/Store/Durable/Atomic.antt =====
-- A SET is atomic: whatever fails, a restart finds the entries from before it or those behind it.
use torii_db.Base.{
  ℕ, ℤ, ◌≤ℤ◌, ◌<◌, Text, codes, true, Option, none, [], lookup, is_some, ◌≡◌, ◌⊎◌, inl, inr,
  Option-cases, arith,
}
use torii_db.External.{External}
use torii_db.Store.Aof.{add_to_aof, add_to_aof_with_vector, add_to_aof-entries}
use torii_db.Store.Compact.{record_vector}
use torii_db.Store.Db.{Db, name_limit, Io, Disk, Files}
use torii_db.Store.Durable.{CodecLaws}
use torii_db.Store.Durable.Changes.{made, set-Agree, set_ok}
use torii_db.Store.Durable.Crash.{IsRecoverable-GivesBack, GivesBack-load_all, Reloads}
use torii_db.Store.Durable.Fragment.{CutLaws}
use torii_db.Store.Durable.Invariant.{set-IsWell}
use torii_db.Store.Durable.Logged.{IsSafe}
use torii_db.Store.Load.{Reads}
use torii_db.Store.Set.{SetFlag, check_flag, set, put_entry, set_entry}
use torii_db.Store.Set.Laws.{set-passed, set-stopped}
use torii_db.Store.Vector.{Base64Laws}
use torii_db.Store.Durable.Failing.{OneOf, write_aof-OneOf}

module _ (ext : External) (laws : CodecLaws ext) (b64 : Base64Laws ext) (cuts : CutLaws ext)
    (now : ℤ) where
  set_passed-OneOf :
      (io : Io) (clock : ℤ) (key value : Text) (flag : SetFlag) (t : Option ℤ) (d : Db)
      → io.sweep ≤ℤ now
      → ext.utf8_valid key ≡ true
      → ext.utf8_valid value ≡ true
      → check_flag flag key (is_some (lookup key d.entries)) ≡ none
      → d.num < name_limit
      → IsSafe ext now d
      → OneOf ext now d.entries
          (set ext io clock key value flag t d).0.entries
          (set ext io clock key value flag t d).0
  unfolding add_to_aof add_to_aof_with_vector put_entry record_vector
  set_passed-OneOf io clock key value flag t d before key_ok value_ok free named safe =
      let (n, snap, ready, durable) = safe.recovers in
      let passed = set-passed ext io clock key value flag t d free in
      let well = set-IsWell ext laws io clock key value flag t d key_ok value_ok safe.well in
      let e = set_entry ext clock key value t (lookup key d.entries) in
      let written = put_entry key e d in
      let same = add_to_aof-entries ext io (codes "SET") key value t written in
      rw (passed, same)
        (write_aof-OneOf ext laws b64 cuts now io before n snap (omega (arith, ready.current))
          (made ext io (codes "SET") key value t) d.entries
          (record {
            command_ok = set_ok ext laws;
            vector_ok = laws.ascii [] tt;
            key_ok = key_ok;
            value_ok = value_ok;
          })
          written
          (record {
            ready = record {
              generation = ready.generation;
              current = ready.current;
              opened = ready.opened;
              next = ready.next;
              loads = ready.loads;
            };
            whole = durable.whole;
            agree = durable.agree;
            well = rw (passed, same) at well;
            change = λ base agree. set-Agree ext now io clock key value t _ base d.entries agree;
          }))

  set-OneOf :
      (io : Io) (clock : ℤ) (key value : Text) (flag : SetFlag) (t : Option ℤ) (d : Db)
      → io.sweep ≤ℤ now
      → ext.utf8_valid key ≡ true
      → ext.utf8_valid value ≡ true
      → d.num < name_limit
      → IsSafe ext now d
      → OneOf ext now d.entries
          (set ext io clock key value flag t d).0.entries
          (set ext io clock key value flag t d).0
  set-OneOf io clock key value flag t d before key_ok value_ok named safe =
      elim (Option-cases (check_flag flag key (is_some (lookup key d.entries)))) [
        | inr (err, e) ↦
            rw (set-stopped ext io clock key value flag t d err e)
              (inl (IsRecoverable-GivesBack ext now d safe.recovers (omega (arith, named))))
        | inl e ↦ set_passed-OneOf io clock key value flag t d before key_ok value_ok e named safe
      ]

  -- A SET of a database whose entries can be logged and whose newest snapshot and log give back the
  -- memory is atomic: whichever system calls of its log write or of the compaction that this starts
  -- fail, however much of the record a failed write has left, and whatever temporary files are
  -- there, a restart that can read its files finds the keys that the memory had before the SET or
  -- those that it has behind it, at `now`, with the same values, types, expiries and vectors,
  -- expired entries aside, and with what their values parse to in the caches of the JSON entries,
  -- if the number of the current log is below 100,000,000, the key and the value are valid UTF-8,
  -- the snapshot's clock is not ahead, a record's JSON that is cut short does not decode and a
  -- newline behind it does not matter, and the record codec and base64 keep their laws; the times
  -- of creation and update are not compared.
  pub set-Reloads :
      (reads : Reads) (temps : Files)
      → ((k : ℕ) → reads.snap_ok k ≡ true)
      → ((k : ℕ) → reads.log_ok k ≡ true)
      → (io : Io) (clock : ℤ) (key value : Text) (flag : SetFlag) (t : Option ℤ) (d : Db)
      → io.sweep ≤ℤ now
      → ext.utf8_valid key ≡ true
      → ext.utf8_valid value ≡ true
      → d.num < name_limit
      → IsSafe ext now d
      → let after = (set ext io clock key value flag t d).0 in
        let disk = record after.disk { temps = temps } in
        Reloads ext reads now disk d.entries ⊎ Reloads ext reads now disk after.entries
  set-Reloads reads temps snaps_ok logs_ok io clock key value flag t d before key_ok value_ok named
        safe =
      either (set-OneOf io clock key value flag t d before key_ok value_ok named safe)
    where
      after : Db
      after = (set ext io clock key value flag t d).0

      disk : Disk
      disk = record after.disk { temps = temps }

      either :
          OneOf ext now d.entries after.entries after
          → Reloads ext reads now disk d.entries ⊎ Reloads ext reads now disk after.entries
      either (inl g) = inl (GivesBack-load_all ext reads now disk d.entries snaps_ok logs_ok g)
      either (inr g) = inr (GivesBack-load_all ext reads now disk after.entries snaps_ok logs_ok g)
