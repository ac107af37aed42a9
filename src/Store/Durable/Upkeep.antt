-- ===== src/Store/Durable/Upkeep.antt =====
-- What the store does between commands: dropping expired entries, and removing old files.
use torii_db.Base.{
  ℕ, zero, suc, ◌≤◌, ◌<◌, ℤ, ◌≤ℤ◌, Text, Dict, Bool, Option, none, some, [], ◌∷◌, All, lookup,
  NodupKeys, or_else, ◌≡◌, refl, arith, Option-cases, Bool-cases, inl, inr, ◌∙◌,
}
use torii_db.External.{External}
use torii_db.Store.Clean.{live_entries, clean_expired}
use torii_db.Store.Compact.{gc_older_than, sweep_files, is_old_snap}
use torii_db.Store.Compact.Sweep.{file_get-sweep_files, gc_older_than-exact}
use torii_db.Store.Db.{Files, Db}
use torii_db.Store.Durable.{IsGone, Same, CodecLaws, log_text}
use torii_db.Store.Durable.Agreement.{Agree-drop}
use torii_db.Store.Durable.Cleaning.{live, lookup-live_entries, Same-live_of}
use torii_db.Store.Durable.Generation.{IsGeneration}
use torii_db.Store.Durable.Invariant.{IsWell, erase-IsWell}
use torii_db.Store.Durable.Logged.{IsSafe, unlogged-IsSafe}
use torii_db.Store.Durable.Snapshot.{AllStored}
use torii_db.Store.Entry.{Entry, is_expired}
use torii_db.Store.Get.{get, read_entry}
use torii_db.Store.Load.{numbers}
use torii_db.Store.Vector.{Base64Laws}

live_entries-NodupKeys : (now : ℤ) (m : Dict Entry) → NodupKeys m → NodupKeys (live_entries now m)
unfolding live_entries live
live_entries-NodupKeys now [] n = tt
live_entries-NodupKeys now ((k, e) ∷ m) (fresh, n) = elim (Bool-cases (is_expired e now)) [
  | inl gone ↦ rw gone (live_entries-NodupKeys now m n)
  | inr stays ↦
      rw stays (rw (lookup-live_entries now k m n, fresh) refl, live_entries-NodupKeys now m n)
]

live_entries-AllStored :
    (ext : External) (now : ℤ) (m : Dict Entry)
    → AllStored ext m
    → AllStored ext (live_entries now m)
unfolding live_entries
live_entries-AllStored ext now [] s = tt
live_entries-AllStored ext now ((k, e) ∷ m) (s, ss) = elim (Bool-cases (is_expired e now)) [
  | inl gone ↦ rw gone (live_entries-AllStored ext now m ss)
  | inr stays ↦ rw stays (s, live_entries-AllStored ext now m ss)
]

live_entries-IsWell :
    (ext : External) (now : ℤ) (m : Dict Entry) → IsWell ext m → IsWell ext (live_entries now m)
live_entries-IsWell ext now m well = record {
  nodup = live_entries-NodupKeys now m well.nodup;
  stored = live_entries-AllStored ext now m well.stored;
}

All-sweep_files :
    (P : ℕ → Type 0) (old : ℕ → Bool) (fs : Files)
    → All P (numbers fs)
    → All P (numbers (sweep_files old fs))
unfolding sweep_files
All-sweep_files P old [] h = tt
All-sweep_files P old ((n, text) ∷ fs) (h, hs) = elim (Bool-cases (old n)) [
  | inl e ↦ rw e (All-sweep_files P old fs hs)
  | inr e ↦ rw e (h, All-sweep_files P old fs hs)
]

IsGeneration-sweep :
    (keep n : ℕ) (snap : Text) (snaps : Files)
    → keep ≤ n
    → IsGeneration n snap snaps
    → IsGeneration n snap (sweep_files (is_old_snap keep) snaps)
IsGeneration-sweep keep zero snap snaps h (e, k) = (rw e (unfold sweep_files in refl), k)
IsGeneration-sweep keep (suc n) snap snaps h (all, e) = (
  All-sweep_files (λ m. m ≤ suc n) (is_old_snap keep) snaps all,
  unfold is_old_snap in ground (arith, file_get-sweep_files (is_old_snap keep) (suc n) snaps),
)

Same-later : (now later : ℤ) (a b : Option Entry) → now ≤ℤ later → Same now a b → Same later a b
Same-later now later a b h (inl same) = inl same
Same-later now later a b h (inr (x, y)) = inr (gone a x, gone b y)
  where
    gone : (o : Option Entry) → IsGone now o → IsGone later o
    gone none x = tt
    gone (some e) x = unfold is_expired in ground arith

module _ (ext : External) (laws : CodecLaws ext) where
  -- What readers from one time on cannot tell apart, later readers cannot either.
  pub IsSafe-later : (now later : ℤ) (d : Db) → now ≤ℤ later → IsSafe ext now d → IsSafe ext later d
  IsSafe-later now later d h safe =
      let (n, snap, ready, durable) = safe.recovers in
      record {
        well = safe.well;
        recovers = (
          n,
          snap,
          ready,
          record {
            whole = durable.whole;
            agree = λ k. Same-later now later _ _ h (durable.agree k);
          },
        );
      }

  pub get-IsSafe :
      (b64 : Base64Laws ext) (now : ℤ) (key : Text) (d : Db)
      → IsSafe ext now d
      → IsSafe ext now (get now key d).0
  unfolding get read_entry
  get-IsSafe b64 now key d safe = elim (Option-cases (lookup key d.entries)) [
    | inl e ↦ rw (e, read_entry) safe
    | inr (f, e) ↦ elim (Bool-cases (is_expired f now)) [
      | inr stays ↦ rw (e, read_entry, stays) safe
      | inl gone ↦
          rw (e, read_entry, gone)
            (unlogged-IsSafe ext laws b64 now d _ (erase-IsWell ext laws key d.entries safe.well)
              (λ base agree. Agree-drop now now key f base d.entries (omega arith) e gone agree)
              safe)
    ]
  ]

  pub clean_expired-IsSafe :
      (b64 : Base64Laws ext) (now : ℤ) (d : Db)
      → IsSafe ext now d
      → IsSafe ext now (clean_expired now d)
  unfolding clean_expired
  clean_expired-IsSafe b64 now d safe =
      unlogged-IsSafe ext laws b64 now d _ (live_entries-IsWell ext now d.entries safe.well)
        (λ base agree k.
          rw (lookup-live_entries now k d.entries safe.well.nodup)
            (Same-live_of now now (lookup k base) (lookup k d.entries) (omega arith) (agree k)))
        safe

  pub gc_older_than-IsSafe :
      (now : ℤ) (keep : ℕ) (d : Db)
      → keep < d.num
      → IsSafe ext now d
      → IsSafe ext now (record d { disk = gc_older_than keep d.disk })
  gc_older_than-IsSafe now keep d h safe =
      let (n, snap, ready, durable) = safe.recovers in
      let num = ready.current in
      let opened = ready.opened in
      let logs = λ (k : ℕ). gc_older_than-exact keep k d.disk in
      let log : log_text (record d { disk = gc_older_than keep d.disk }) ≡ log_text d =
        rw ((logs (or_else d.aof d.num)).1 (omega arith)) in
      record {
        well = safe.well;
        recovers = (
          n,
          snap,
          record {
            generation =
                unfold gc_older_than in
                IsGeneration-sweep keep n snap d.disk.snaps (omega arith) ready.generation;
            current = ready.current;
            opened = ready.opened;
            next = λ k later. (logs k).1 (omega arith) ∙ ready.next k later;
            loads = ready.loads;
          },
          record { whole = rw log durable.whole; agree = rw log durable.agree },
        );
      }
