-- ===== src/Store/Durable/Closing.antt =====
-- A Close compacts the database, removes old files and closes the log.
use torii_db.Base.{◌-◌, ℤ, ◌≤ℤ◌, none, some, ◌≡◌, refl, arith, Bool, true, false, if◌then◌else◌}
use torii_db.External.{External}
use torii_db.Store.Close.{close_db, release}
use torii_db.Store.Compact.{compact, gc_older_than}
use torii_db.Store.Db.{Db, Io, Outcome}
use torii_db.Store.Durable.{CodecLaws, log_text}
use torii_db.Store.Durable.Ready.{IsHealthy, compact-IsRecoverable}
use torii_db.Store.Durable.Logged.{IsSafe}
use torii_db.Store.Durable.Upkeep.{gc_older_than-IsSafe}
use torii_db.Store.Vector.{Base64Laws}
use torii_db.Store.Aof.{compact-entries}

module _ (ext : External) (laws : CodecLaws ext) (b64 : Base64Laws ext) (now : ℤ) where
  compact-IsSafe :
      (io : Io) (d : Db)
      → IsHealthy io
      → io.sweep ≤ℤ now
      → IsSafe ext now d
      → IsSafe ext now (compact ext io d).0
  compact-IsSafe io d healthy before safe =
      let (n, snap, ready, durable) = safe.recovers in
      record {
        well = rw (compact-entries ext io d) safe.well;
        recovers =
            compact-IsRecoverable ext io now n snap d laws b64 healthy before safe.well ready
              durable;
      }

  -- The log that is opened next is the one that was open.
  closed-IsSafe : (d : Db) → IsSafe ext now d → IsSafe ext now (record d { aof = none })
  closed-IsSafe d safe =
      let (n, snap, ready, durable) = safe.recovers in
      let same : log_text (record d { aof = none }) ≡ log_text d = rw ready.opened refl in
      record {
        well = safe.well;
        recovers = (
          n,
          snap,
          record {
            generation = ready.generation;
            current = ready.current;
            opened = refl;
            next = ready.next;
            loads = ready.loads;
          },
          record { whole = rw same durable.whole; agree = rw same durable.agree },
        );
      }

  release-IsSafe : (o : Outcome) → IsSafe ext now o.0 → IsSafe ext now (release o).0
  unfolding release
  release-IsSafe (d, some err) safe = closed-IsSafe d safe
  release-IsSafe (d, none) safe =
      let (n, snap, ready, durable) = safe.recovers in
      closed-IsSafe (record d { disk = gc_older_than (d.num - 1) d.disk })
        (gc_older_than-IsSafe ext laws now (d.num - 1) d (omega (arith, ready.current)) safe)

  pub close_db-IsSafe :
      (io : Io) (d : Db)
      → IsHealthy io
      → io.sweep ≤ℤ now
      → IsSafe ext now d
      → IsSafe ext now (close_db ext io d).0
  unfolding close_db
  close_db-IsSafe io d healthy before safe =
      either d.loaded (release (compact ext io d)) (d, none)
        (release-IsSafe (compact ext io d) (compact-IsSafe io d healthy before safe)) safe
    where
      either :
          (b : Bool) (t e : Outcome)
          → IsSafe ext now t.0
          → IsSafe ext now e.0
          → IsSafe ext now (if b then t else e).0
      either true t e h k = h
      either false t e h k = k
