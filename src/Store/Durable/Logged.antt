-- ===== src/Store/Durable/Logged.antt =====
-- What every command keeps, and the way to it: a record that changes what the files give as the
-- entries have changed, or a change of the entries that no reader sees.
use torii_db.Base.{ℤ, ◌≤ℤ◌, Text, Dict, true, false, Option, none, some, [], ◌≡◌}
use torii_db.External.{External}
use torii_db.Store.Aof.{add_to_aof, add_to_aof_with_vector, add_to_aof-entries}
use torii_db.Store.Compact.{record_vector}
use torii_db.Store.Db.{Db, Io}
use torii_db.Store.Durable.{Agree, CodecLaws}
use torii_db.Store.Durable.Changes.{made}
use torii_db.Store.Durable.Ready.{IsHealthy, IsRecoverable, write_aof-IsRecoverable}
use torii_db.Store.Durable.Invariant.{IsWell}
use torii_db.Store.Entry.{Entry, is_expired}
use torii_db.Store.Replay.{apply_record}
use torii_db.Store.Vector.{Base64Laws}

-- A missing entry, or one that has not expired.
abbrev pub IsLive : ℤ → Option Entry → Type 0
IsLive now none = Unit {0}
IsLive now (some e) = is_expired e now ≡ false

-- A missing entry, or one without a vector.
abbrev pub HasNoVector : Option Entry → Type 0
HasNoVector none = Unit {0}
HasNoVector (some e) = e.vector ≡ []

-- What every command keeps: entries that can be logged, and files that give them back.
pub record IsSafe (ext : External) (now : ℤ) (d : Db) : Type 0 where
  pub well : IsWell ext d.entries
  pub recovers : IsRecoverable ext now d

module _ (ext : External) (laws : CodecLaws ext) (b64 : Base64Laws ext) (now : ℤ) where
  -- A command that changes the entries and logs a record that makes the same change.
  logged-IsRecoverable :
      (io : Io) (command key value : Text) (t : Option ℤ) (d : Db) (m : Dict Entry)
      → IsHealthy io
      → io.sweep ≤ℤ now
      → ext.utf8_valid command ≡ true
      → ext.utf8_valid key ≡ true
      → ext.utf8_valid value ≡ true
      → IsWell ext m
      → ((base : Dict Entry)
          → Agree now base d.entries
          → Agree now (apply_record ext (made ext io command key value t) base) m)
      → IsRecoverable ext now d
      → IsRecoverable ext now (add_to_aof ext io command key value t (record d { entries = m })).0
  unfolding add_to_aof add_to_aof_with_vector record_vector
  logged-IsRecoverable io command key value t d m healthy before c k w well same
        (n, snap, ready, durable) =
      write_aof-IsRecoverable ext io now n snap (made ext io command key value t)
        (record d { entries = m }) laws b64 healthy before c (laws.ascii [] tt) k w well
        (record {
          generation = ready.generation;
          current = ready.current;
          opened = ready.opened;
          next = ready.next;
          loads = ready.loads;
        })
        durable.whole (same _ durable.agree)

  pub logged-IsSafe :
      (io : Io) (command key value : Text) (t : Option ℤ) (d : Db) (m : Dict Entry)
      → IsHealthy io
      → io.sweep ≤ℤ now
      → ext.utf8_valid command ≡ true
      → ext.utf8_valid key ≡ true
      → ext.utf8_valid value ≡ true
      → IsWell ext (add_to_aof ext io command key value t (record d { entries = m })).0.entries
      → ((base : Dict Entry)
          → Agree now base d.entries
          → Agree now (apply_record ext (made ext io command key value t) base) m)
      → IsSafe ext now d
      → IsSafe ext now (add_to_aof ext io command key value t (record d { entries = m })).0
  logged-IsSafe io command key value t d m healthy before c k w well same safe = record {
    well = well;
    recovers =
        logged-IsRecoverable io command key value t d m healthy before c k w
          (rw (add_to_aof-entries ext io command key value t (record d { entries = m })) at well)
          same safe.recovers;
  }

  -- The disk, the log and the flags stay, and the entries change without a record.
  pub unlogged-IsSafe :
      (d : Db) (m : Dict Entry)
      → IsWell ext m
      → ((base : Dict Entry) → Agree now base d.entries → Agree now base m)
      → IsSafe ext now d
      → IsSafe ext now (record d { entries = m })
  unlogged-IsSafe d m well same safe =
      let (n, snap, ready, durable) = safe.recovers in
      record {
        well = well;
        recovers = (
          n,
          snap,
          record {
            generation = ready.generation;
            current = ready.current;
            opened = ready.opened;
            next = ready.next;
            loads = ready.loads;
          },
          record { whole = durable.whole; agree = same _ durable.agree },
        );
      }
