-- ===== src/Store/Durable/History.antt =====
-- A history of a database on a healthy disk: commands, the timer, removals of old files and Closes in any
-- order, while the clock does not run back, and the restart that ends it.
use torii_db.Base.{
  ℕ, ◌<◌, ◌≤◌, ℤ, ◌≤ℤ◌, Text, codes, true, false, Option, none, some, List, [], All, lookup, ◌≡◌,
  refl, arith, inl,
}
use torii_db.Base.Number.{format_int}
use torii_db.External.{External}
use torii_db.Json.{Float}
use torii_db.Store.Clean.{clean_expired}
use torii_db.Store.Compact.{gc_older_than}
use torii_db.Store.Close.{close_db}
use torii_db.Store.Core.{unloaded}
use torii_db.Store.Durable.Closing.{close_db-IsSafe}
use torii_db.Store.Db.{Db, name_limit, Io, file_get}
use torii_db.Store.Del.{del, del_field}
use torii_db.Store.Durable.{CodecLaws}
use torii_db.Store.Durable.Changes.{
  expire-SetsExpiry, expire_at-SetsExpiry, persist-SetsExpiry, expire_ok, expire_at_ok, persist_ok,
}
use torii_db.Store.Durable.Crash.{IsRecoverable-GivesBack, GivesBack-load_all}
use torii_db.Store.Durable.Parsed.{Restored}
use torii_db.Store.Durable.Fields.{MarshalLaws}
use torii_db.Store.Durable.FieldSteps.{del_field-IsSafe, incr_field-IsSafe}
use torii_db.Store.Durable.Ready.{IsHealthy}
use torii_db.Store.Durable.Logged.{IsLive, HasNoVector, IsSafe}
use torii_db.Store.Durable.Safe.{set-IsSafe, del-IsSafe, set_expiry-IsSafe, incr-IsSafe}
use torii_db.Store.Durable.Upkeep.{
  IsSafe-later, get-IsSafe, clean_expired-IsSafe, gc_older_than-IsSafe,
}
use torii_db.Store.Durable.SetFields.{HasExpiry, set_field-IsSafe}
use torii_db.Store.Get.{get}
use torii_db.Store.Incr.{incr, incr_field}
use torii_db.Store.Load.{Reads, load_all}
use torii_db.Store.Replay.{replay_text, lines_of, apply_lines}
use torii_db.Store.Set.{SetFlag, set}
use torii_db.Store.SetField.{set_field}
use torii_db.Store.Ttl.{expire, expire_at, persist}
use torii_db.Store.Vector.{Base64Laws}
use torii_db.Utils.{vtoa_float}

-- One command at a time `now`, with what it is given: a healthy disk, a snapshot clock that is not
-- ahead, texts that are valid UTF-8; a live entry for a change of expiry, and one without a vector
-- for INCR and the writes at a path,
-- of which SETFIELD is given an expiry if the entry has one.
pub data Step (ext : External) (now : ℤ) (d : Db) : Db → Type 0 where
  sets :
      (io : Io) (clock : ℤ) (key value : Text) (flag : SetFlag) (t : Option ℤ)
      → IsHealthy io
      → io.sweep ≤ℤ now
      → ext.utf8_valid key ≡ true
      → ext.utf8_valid value ≡ true
      → Step ext now d (set ext io clock key value flag t d).0
  dels :
      (env : ℕ → Io) (keys : List Text)
      → ((n : ℕ) → IsHealthy (env n))
      → ((n : ℕ) → (env n).sweep ≤ℤ now)
      → All (λ key. ext.utf8_valid key ≡ true) keys
      → Step ext now d (del ext env keys d).0
  expires :
      (io : Io) (clock seconds : ℤ) (key : Text)
      → IsHealthy io
      → io.sweep ≤ℤ now
      → ext.utf8_valid key ≡ true
      → ext.utf8_valid (format_int seconds) ≡ true
      → IsLive now (lookup key d.entries)
      → Step ext now d (expire ext io clock key seconds d).0
  expires_at :
      (io : Io) (key : Text) (timestamp : ℤ)
      → IsHealthy io
      → io.sweep ≤ℤ now
      → ext.utf8_valid key ≡ true
      → ext.utf8_valid (format_int timestamp) ≡ true
      → IsLive now (lookup key d.entries)
      → Step ext now d (expire_at ext io key timestamp d).0
  persists :
      (io : Io) (key : Text)
      → IsHealthy io
      → io.sweep ≤ℤ now
      → ext.utf8_valid key ≡ true
      → IsLive now (lookup key d.entries)
      → Step ext now d (persist ext io key d).0
  incrs :
      (io : Io) (clock : ℤ) (key : Text) (delta : Float)
      → IsHealthy io
      → io.sweep ≤ℤ now
      → ext.utf8_valid key ≡ true
      → ((f : Float) → ext.utf8_valid (vtoa_float ext f) ≡ true)
      → HasNoVector (lookup key d.entries)
      → Step ext now d (incr ext io clock key delta d).0
  dels_field :
      (io : Io) (clock : ℤ) (key : Text) (sub_keys : List Text)
      → IsHealthy io
      → io.sweep ≤ℤ now
      → MarshalLaws ext
      → ext.utf8_valid key ≡ true
      → HasNoVector (lookup key d.entries)
      → Step ext now d (del_field ext io clock key sub_keys d).0
  incrs_field :
      (io : Io) (clock : ℤ) (key : Text) (sub_keys : List Text) (delta : Float)
      → IsHealthy io
      → io.sweep ≤ℤ now
      → MarshalLaws ext
      → ext.utf8_valid key ≡ true
      → HasNoVector (lookup key d.entries)
      → Step ext now d (incr_field ext io clock key sub_keys delta d).0
  sets_field :
      (io : Io) (clock : ℤ) (key : Text) (sub_keys : List Text) (value : Text) (flag : SetFlag)
      (t : Option ℤ)
      → IsHealthy io
      → io.sweep ≤ℤ now
      → MarshalLaws ext
      → ext.utf8_valid key ≡ true
      → HasNoVector (lookup key d.entries)
      → HasExpiry t (lookup key d.entries)
      → Step ext now d (set_field ext io clock key sub_keys value flag t d).0
  gets : (key : Text) → Step ext now d (get now key d).0
  closes : (io : Io) → IsHealthy io → io.sweep ≤ℤ now → Step ext now d (close_db ext io d).0
  cleans : Step ext now d (clean_expired now d)
  sweeps :
      (keep : ℕ) → keep < d.num → Step ext now d (record d { disk = gc_older_than keep d.disk })

-- A database that was loaded from an empty directory.
abbrev pub new_db : Db
new_db = record {
  entries = [];
  disk = record { dir = true; snaps = []; logs = []; temps = [] };
  aof = none;
  num = 1;
  load_err = false;
  log_size = 0;
  snap_size = 0;
  loaded = true;
}

-- What a new database becomes by steps at times that do not run back.
pub data Run (ext : External) : ℤ → Db → Type 0 where
  begins : (now : ℤ) → Run ext now new_db
  goes :
      {before now : ℤ} {d d' : Db}
      → Run ext before d
      → before ≤ℤ now
      → Step ext now d d'
      → Run ext now d'

module _ (ext : External) (laws : CodecLaws ext) (b64 : Base64Laws ext) where
  Step-IsSafe : {now : ℤ} {d d' : Db} → Step ext now d d' → IsSafe ext now d → IsSafe ext now d'
  Step-IsSafe {now} {d} (sets io clock key value flag t healthy before k w) safe =
      set-IsSafe ext laws b64 now io clock key value flag t d healthy before k w safe
  Step-IsSafe {now} {d} (dels env keys healthy before ok) safe =
      del-IsSafe ext laws b64 now env keys d healthy before ok safe
  Step-IsSafe {now} {d} (expires io clock seconds key healthy before k w live) safe =
      unfold expire in
      set_expiry-IsSafe ext laws b64 now io (codes "EXPIRE") key _ _ d healthy before
        (expire-SetsExpiry ext now io key _ _) (expire_ok ext laws) k w live safe
  Step-IsSafe {now} {d} (expires_at io key timestamp healthy before k w live) safe =
      unfold expire_at in
      set_expiry-IsSafe ext laws b64 now io (codes "EXPIREAT") key _ _ d healthy before
        (expire_at-SetsExpiry ext now io key _ _) (expire_at_ok ext laws) k w live safe
  Step-IsSafe {now} {d} (persists io key healthy before k live) safe =
      unfold persist in
      set_expiry-IsSafe ext laws b64 now io (codes "PERSIST") key [] none d healthy before
        (persist-SetsExpiry ext now io key []) (persist_ok ext laws) k (laws.ascii [] tt) live safe
  Step-IsSafe {now} {d} (incrs io clock key delta healthy before k floats plain) safe =
      incr-IsSafe ext laws b64 now io clock key delta d healthy before k floats plain safe
  Step-IsSafe {now} {d} (dels_field io clock key sub_keys healthy before marshals k plain) safe =
      del_field-IsSafe ext laws b64 marshals now io healthy before key k d plain safe clock sub_keys
  Step-IsSafe {now} {d} (incrs_field io clock key sub_keys delta healthy before marshals k plain)
        safe =
      incr_field-IsSafe ext laws b64 marshals now io healthy before key k d plain safe clock
        sub_keys delta
  Step-IsSafe {now} {d}
        (sets_field io clock key sub_keys value flag t healthy before marshals k plain expiry)
        safe =
      set_field-IsSafe ext laws b64 marshals now io healthy before key k clock sub_keys value flag t
        d plain expiry safe
  Step-IsSafe {now} {d} (gets key) safe = get-IsSafe ext laws b64 now key d safe
  Step-IsSafe {now} {d} (closes io healthy before) safe =
      close_db-IsSafe ext laws b64 now io d healthy before safe
  Step-IsSafe {now} {d} cleans safe = clean_expired-IsSafe ext laws b64 now d safe
  Step-IsSafe {now} {d} (sweeps keep h) safe = gc_older_than-IsSafe ext laws now keep d h safe

  new_db-IsSafe : (now : ℤ) → IsSafe ext now new_db
  unfolding replay_text lines_of apply_lines file_get
  new_db-IsSafe now = record {
    well = record { nodup = tt; stored = tt };
    recovers = (
      0,
      [],
      record {
        generation = (refl, refl);
        current = omega arith;
        opened = refl;
        next = λ k h. refl;
        loads = refl;
      },
      record { whole = refl; agree = λ k. inl refl },
    );
  }

  pub Run-IsSafe : {now : ℤ} {d : Db} → Run ext now d → IsSafe ext now d
  Run-IsSafe (begins now) = new_db-IsSafe now
  Run-IsSafe (goes {before} {now} {d} {d'} run h step) =
      Step-IsSafe step (IsSafe-later ext laws before now d h (Run-IsSafe run))

  -- After any history of a new database - SET, DEL, EXPIRE, EXPIREAT, PERSIST, INCR, SETFIELD,
  -- DELFIELD, INCRFIELD, GET, the timer, removals of old files and Closes, with the compactions
  -- that the writes start - a restart that can read its files ends with a database that at the time
  -- of the last step has the keys of the memory with the same values, types, expiries and vectors,
  -- expired entries aside, and whose JSON entries have what their values parse to in their caches -
  -- the times of creation and update are not compared - if the number of the current log is at most
  -- 100,000,000, no system call of a write fails, the clock does not run back and no snapshot's
  -- clock is ahead, the texts are valid UTF-8, a changed expiry belongs to an entry that has not
  -- expired, INCR and the writes at a path meet no vector, SETFIELD is given an expiry if the entry
  -- has one, json.Marshal gives valid UTF-8 that is told as JSON for an object, old files are
  -- removed below the current log only, and the record codec and base64 keep their laws.
  pub Run-load_all :
      (reads : Reads)
      → ((k : ℕ) → reads.snap_ok k ≡ true)
      → ((k : ℕ) → reads.log_ok k ≡ true)
      → {now : ℤ} {d : Db} → Run ext now d
      → d.num ≤ name_limit
      → (d' : Db) × (load_all ext reads (unloaded d.disk) ≡ some d')
        × Restored ext now d'.entries d.entries
  Run-load_all reads snaps_ok logs_ok {now} {d} run named =
      GivesBack-load_all ext reads now d.disk d.entries snaps_ok logs_ok
        (IsRecoverable-GivesBack ext now d (Run-IsSafe run).recovers named)
