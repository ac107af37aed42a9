-- ===== src/Store/Durable/Crash.antt =====
-- What the files give at each point at which `compact` of core/store/aof.go can stop: a system call
-- that fails, or the end of the process between two of them.
use torii_db.Base.{
  ℕ, suc, ◌<◌, ◌≤◌, ◌+◌, ℤ, ◌≤ℤ◌, Text, Dict, true, not, ◌&&◌, some, List, [], ◌∷◌, is_empty, ◌≡◌,
  ◌∙◌, refl, arith, Bool-cases, Option-cases, inl, inr,
}
use torii_db.External.{External}
use torii_db.Store.Entry.{Entry}
use torii_db.Store.Compact.{
  serialize, compact, open_next_log, rename_snapshot, remove_temp, write_temp,
}
use torii_db.Store.Core.{unloaded}
use torii_db.Store.Db.{
  Db, Disk, Files, name_limit, Io, file_get, file_put, text_of, file_get-file_put,
}
use torii_db.Store.Durable.{Agree, CodecLaws, log_text}
use torii_db.Store.Durable.Generation.{IsNewest-of_IsGeneration, IsGeneration-next}
use torii_db.Store.Durable.Logged.{IsSafe}
use torii_db.Store.Durable.Ready.{IsReady, IsRecoverable}
use torii_db.Store.Durable.Restart.{
  HoldsFrom, IsNewest, replay_texts, load_all-HoldsFrom, replay_texts-AllParsed,
}
use torii_db.Store.Durable.Parsed.{Restored}
use torii_db.Store.Durable.Snapshot.{replay_text-nil, serialize-Agree}
use torii_db.Store.Load.{Reads, load_all}
use torii_db.Store.Replay.{replay_text}
use torii_db.Store.Vector.{Base64Laws}

-- The files replay to what agrees with some entries: a newest snapshot and the logs behind it.
pub record GivesBack (ext : External) (now : ℤ) (snaps logs : Files) (m : Dict Entry) : Type 0 where
  pub num : ℕ
  pub snap : Text
  pub texts : List Text
  pub newest : IsNewest num snap snaps
  pub holds : HoldsFrom (num + 1) texts logs
  pub agree : Agree now (replay_texts ext texts (replay_text ext snap [])) m

module _ (ext : External) where
  -- The current log, over the newest snapshot, agrees with some entries.
  pub IsReady-GivesBack :
      (now : ℤ) (n : ℕ) (snap : Text) (d : Db) (m : Dict Entry)
      → IsReady n snap d
      → d.num ≤ name_limit
      → Agree now (replay_text ext (log_text d) (replay_text ext snap [])) m
      → GivesBack ext now d.disk.snaps d.disk.logs m
  IsReady-GivesBack now n snap d m ready named agree =
      let newest =
        IsNewest-of_IsGeneration n snap d.disk.snaps (omega (arith, ready.current))
          ready.generation in
      let num = ready.opened ∙ ready.current in
      let next = ready.next (n + 1 + 1) (omega (arith, ready.current)) in
      elim (Option-cases (file_get (n + 1) d.disk.logs)) [
        | inl e ↦
            let log : log_text d ≡ [] = rw num (rw e refl) in
            record {
              num = n;
              snap = snap;
              texts = [];
              newest = newest;
              holds = e;
              agree = rw (log, replay_text-nil ext (replay_text ext snap [])) at agree;
            }
        | inr (text, e) ↦
            let log : log_text d ≡ text = rw num (rw e refl) in
            record {
              num = n;
              snap = snap;
              texts = text ∷ [];
              newest = newest;
              holds = (e, next);
              agree = rw log at agree;
            }
      ]

  pub IsRecoverable-GivesBack :
      (now : ℤ) (d : Db)
      → IsRecoverable ext now d
      → d.num ≤ name_limit
      → GivesBack ext now d.disk.snaps d.disk.logs d.entries
  IsRecoverable-GivesBack now d (n, snap, ready, durable) named =
      IsReady-GivesBack now n snap d d.entries ready named durable.agree

  -- A restart of what stands on a disk
  abbrev pub Reloads : Reads → ℤ → Disk → Dict Entry → Type 0
  Reloads reads now disk m =
      (d : Db) × (load_all ext reads (unloaded disk) ≡ some d) × Restored ext now d.entries m

  pub GivesBack-load_all :
      (reads : Reads) (now : ℤ) (disk : Disk) (m : Dict Entry)
      → ((k : ℕ) → reads.snap_ok k ≡ true)
      → ((k : ℕ) → reads.log_ok k ≡ true)
      → GivesBack ext now disk.snaps disk.logs m
      → Reloads reads now disk m
  GivesBack-load_all reads now disk m snaps_ok logs_ok g =
      let (d', same, entries, fine) =
        load_all-HoldsFrom ext reads g.num g.snap g.texts (unloaded disk) snaps_ok logs_ok g.newest
          g.holds in
      (d', same, (rw entries g.agree, rw entries (replay_texts-AllParsed ext g.snap g.texts)))

  module _ (laws : CodecLaws ext) (b64 : Base64Laws ext) (now : ℤ) (io : Io) (d : Db)
      (before : io.sweep ≤ℤ now) (named : d.num < name_limit) (safe : IsSafe ext now d) where
    abbrev buf : Text
    buf = serialize ext io.sweep d.entries

    renamed-IsNewest : IsNewest (suc safe.recovers.0) buf (file_put d.num buf d.disk.snaps)
    renamed-IsNewest =
        let (n, snap, ready, durable) = safe.recovers in
        let num : d.num ≡ suc n = omega (arith, ready.current) in
        rw num (
          IsNewest-of_IsGeneration (suc n) buf _ (omega (arith, num, named))
            (IsGeneration-next n snap buf d.disk.snaps ready.generation))

    -- The snapshot has its name, and the next log is not there yet.
    renamed-GivesBack : GivesBack ext now (file_put d.num buf d.disk.snaps) d.disk.logs d.entries
    renamed-GivesBack =
        let (n, snap, ready, durable) = safe.recovers in
        let num : d.num ≡ suc n = omega (arith, ready.current) in
        record {
          num = suc n;
          snap = buf;
          texts = [];
          newest = renamed-IsNewest;
          holds = ready.next (suc n + 1) (omega (arith, num));
          agree =
              serialize-Agree ext io.sweep now d.entries laws b64 safe.well.nodup safe.well.stored
                before;
        }

    -- The next log is open, and empty.
    opened-GivesBack :
        GivesBack ext now
          (file_put d.num buf d.disk.snaps)
          (file_put (d.num + 1) (text_of (file_get (d.num + 1) d.disk.logs)) d.disk.logs)
          d.entries
    opened-GivesBack =
        let (n, snap, ready, durable) = safe.recovers in
        let num : d.num ≡ suc n = omega (arith, ready.current) in
        let fresh = ready.next (d.num + 1) (omega arith) in
        let base =
          serialize-Agree ext io.sweep now d.entries laws b64 safe.well.nodup safe.well.stored
            before in
        record {
          num = suc n;
          snap = buf;
          texts = [] ∷ [];
          newest = renamed-IsNewest;
          holds = (
            ground (
              arith,
              file_get-file_put (d.num + 1) (suc n + 1) (text_of (file_get (d.num + 1) d.disk.logs))
                  d.disk.logs,
            ),
            ground (
              arith,
              file_get-file_put (d.num + 1) (suc n + 1 + 1)
                  (text_of (file_get (d.num + 1) d.disk.logs)) d.disk.logs,
              ready.next (suc n + 1 + 1),
            ),
          );
          agree = rw (replay_text-nil ext (replay_text ext buf [])) base;
        }

    -- Wherever a compaction stops, the files give back the memory.
    pub compact-GivesBack :
        GivesBack ext now (compact ext io d).0.disk.snaps (compact ext io d).0.disk.logs d.entries
    unfolding compact open_next_log rename_snapshot remove_temp write_temp
    compact-GivesBack =
        let kept = IsRecoverable-GivesBack now d safe.recovers (omega (arith, named)) in
        let (n, snap, ready, durable) = safe.recovers in
        let fine = ready.loads in
        elim (Bool-cases (is_empty d.entries && not d.disk.dir)) [
          | inl e ↦ rw (fine, e) kept
          | inr e ↦ elim (Bool-cases io.temp_ok) [
            | inr fails ↦ rw (fine, e, fails) kept
            | inl temp ↦ elim (Bool-cases io.rename_ok) [
              | inr fails ↦ rw (fine, e, temp, fails) kept
              | inl named ↦ elim (Bool-cases io.sync_dir_ok) [
                | inr fails ↦ rw (fine, e, temp, named, fails) renamed-GivesBack
                | inl synced ↦ elim (Bool-cases io.next_ok) [
                  | inr fails ↦ rw (fine, e, temp, named, synced, fails) renamed-GivesBack
                  | inl opens ↦ rw (fine, e, temp, named, synced, opens) opened-GivesBack
                ]
              ]
            ]
          ]
        ]

    -- Wherever a compaction of a database stops whose entries can be logged and whose newest
    -- snapshot and log give back the memory - at any failing system call, or before the next one
    -- with whatever temporary files it has left - a restart that can read its files ends with a
    -- database that at `now` has the keys of the memory with the same values, types, expiries and
    -- vectors, expired entries aside, and whose JSON entries have what their values parse to in
    -- their caches, if the number of the current log is below 100,000,000, the snapshot's clock is
    -- not ahead and the record codec and base64 keep their laws; the times of creation and update
    -- are not compared.
    pub compact-Reloads :
        (reads : Reads) (temps : Files)
        → ((k : ℕ) → reads.snap_ok k ≡ true)
        → ((k : ℕ) → reads.log_ok k ≡ true)
        → Reloads reads now (record (compact ext io d).0.disk { temps = temps }) d.entries
    compact-Reloads reads temps snaps_ok logs_ok =
        GivesBack-load_all reads now (record (compact ext io d).0.disk { temps = temps }) d.entries
          snaps_ok logs_ok compact-GivesBack
