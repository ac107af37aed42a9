-- ===== src/Store/Durable/Restart.antt =====
-- A restart: loading the files of a durable database gives back what its memory held.
use torii_db.Base.{
  ℕ, zero, suc, ◌+◌, ℤ, Text, Dict, true, false, Option, none, some, List, [], ◌∷◌, length, or_else,
  ◌≡◌, ◌≢◌, refl, ap, arith, ◌∙◌, Option-cases, inl, inr,
}
use torii_db.External.{External}
use torii_db.Store.Entry.{Entry}
use torii_db.Store.Db.{Files, Db, file_get}
use torii_db.Store.Replay.{replay_text, replay_into}
use torii_db.Store.Load.{
  Reads, replayed, out_of_fuel, replay_logs, finish_generation, logs_from, replay_generation,
  try_generations, first_generation, load_all, snap_numbers, above, accepted,
  replay_logs-ne-out_of_fuel,
}
use torii_db.Store.Durable.{IsDurable, log_text}
use torii_db.Store.Durable.Parsed.{AllParsed, Restored, nil-AllParsed, replay_text-AllParsed}
use torii_db.Store.Durable.Snapshot.{replay_text-nil}

-- The logs from a number on hold these texts, and the next log is not there.
abbrev pub HoldsFrom : ℕ → List Text → Files → Type 0
HoldsFrom num [] logs = file_get num logs ≡ none
HoldsFrom num (text ∷ texts) logs = (file_get num logs ≡ some text) × HoldsFrom (num + 1) texts logs

-- The newest snapshot has a number and a text; the number is 0 where there is no snapshot.
abbrev pub IsNewest : ℕ → Text → Files → Type 0
IsNewest zero text snaps = (snap_numbers snaps ≡ []) × (text ≡ [])
IsNewest (suc n) text snaps =
    ((older : List ℕ) × (snap_numbers snaps ≡ suc n ∷ older)) × (file_get (suc n) snaps ≡ some text)

-- The files are replayed one behind the other.
abbrev pub replay_texts : External → List Text → Dict Entry → Dict Entry
replay_texts ext [] m = m
replay_texts ext (text ∷ texts) m = replay_texts ext texts (replay_text ext text m)

pub replay_texts-AllParsed :
    (ext : External) (snap : Text) (texts : List Text)
    → AllParsed ext (replay_texts ext texts (replay_text ext snap []))
replay_texts-AllParsed ext snap texts =
    onto texts (replay_text ext snap []) (replay_text-AllParsed ext snap [] (nil-AllParsed ext))
  where
    onto :
        (ts : List Text) (m : Dict Entry) → AllParsed ext m → AllParsed ext (replay_texts ext ts m)
    onto [] m all = all
    onto (t ∷ ts) m all = onto ts (replay_text ext t m) (replay_text-AllParsed ext t m all)

-- What a load that succeeds ends with.
abbrev pub IsLoaded : Dict Entry → Option Db → Type 0
IsLoaded m o = (d : Db) × (o ≡ some d) × (d.entries ≡ m) × (d.load_err ≡ false)

module _ (ext : External) (reads : Reads) where
  replay_logs-HoldsFrom :
      (texts : List Text) (fuel : ℕ) (logs : Files) (num : ℕ) (m : Dict Entry) (size : ℕ)
      → ((k : ℕ) → reads.log_ok k ≡ true)
      → HoldsFrom num texts logs
      → replay_logs ext reads fuel logs num m size ≢ out_of_fuel
      → (last : ℕ) × (replay_logs ext reads fuel logs num m size
          ≡ replayed (replay_texts ext texts m) last (num + length texts))
  unfolding replay_logs
  replay_logs-HoldsFrom texts zero logs num m size ok h ne = absurd (ne refl)
  replay_logs-HoldsFrom [] (suc fuel) logs num m size ok h ne = (size, ground arith)
  replay_logs-HoldsFrom (text ∷ texts) (suc fuel) logs num m size ok (h, hs) ne =
      let (last, same) =
        replay_logs-HoldsFrom texts fuel logs (num + 1) (replay_text ext text m) (length text) ok hs
          (λ stuck. ne (ground (arith, ok num))) in
      (last, ground (arith, ok num))

  finish_generation-replayed :
      (n size num : ℕ) (m : Dict Entry) (d : Db)
      → (d' : Db) × (finish_generation ext reads n d (replayed m size num) ≡ accepted d')
        × (d'.entries ≡ m)
        × (d'.load_err ≡ false)
  unfolding finish_generation
  finish_generation-replayed n size num m d = (_, refl, refl, refl)

  try_generations-accepted :
      (n : ℕ) (ns : List ℕ) (d d' : Db)
      → replay_generation ext reads n d ≡ accepted d'
      → try_generations ext reads (n ∷ ns) d ≡ some d'
  unfolding try_generations
  try_generations-accepted n ns d d' h = ground arith

  logs_from-HoldsFrom :
      (texts : List Text) (n : ℕ) (m : Dict Entry) (d : Db)
      → ((k : ℕ) → reads.log_ok k ≡ true)
      → HoldsFrom (n + 1) texts d.disk.logs
      → (d' : Db) × (logs_from ext reads n m d ≡ accepted d')
        × (d'.entries ≡ replay_texts ext texts m)
        × (d'.load_err ≡ false)
  unfolding logs_from
  logs_from-HoldsFrom texts n m d ok h =
      let logs = d.disk.logs in
      let (last, same) = replay_logs-HoldsFrom texts (suc (above logs)) logs (n + 1) m 0 ok h (
        replay_logs-ne-out_of_fuel ext reads (suc (above logs)) logs (n + 1) m 0 (omega arith)
          (omega arith)) in
      let (d', finished, entries, fine) =
        finish_generation-replayed n last (n + 1 + length texts) (replay_texts ext texts m) d in
      (d', ap (finish_generation ext reads n d) same ∙ finished, entries, fine)

  replay_generation-snap :
      (n : ℕ) (snap : Text) (d : Db)
      → reads.snap_ok (suc n) ≡ true
      → file_get (suc n) d.disk.snaps ≡ some snap
      → replay_generation ext reads (suc n) d
        ≡ logs_from ext reads
            (suc n)
            (replay_text ext snap [])
            (record d { snap_size = length snap })
  unfolding replay_generation replay_into
  replay_generation-snap n snap d ok found = ground arith

  -- If the newest snapshot (or none, with the number 0) and the logs from the next number up to the
  -- first that is not there can be read, loading ends without a load error and with what the replay
  -- of that snapshot and then of those logs in order gives.
  pub load_all-HoldsFrom :
      (n : ℕ) (snap : Text) (texts : List Text) (d : Db)
      → ((k : ℕ) → reads.snap_ok k ≡ true)
      → ((k : ℕ) → reads.log_ok k ≡ true)
      → IsNewest n snap d.disk.snaps
      → HoldsFrom (n + 1) texts d.disk.logs
      → IsLoaded (replay_texts ext texts (replay_text ext snap [])) (load_all ext reads d)
  unfolding load_all first_generation replay_generation
  load_all-HoldsFrom zero snap texts d snaps_ok logs_ok (newest, empty) h =
      let start = record d { disk = record d.disk { temps = [] } } in
      let (d', same, entries, fine) = logs_from-HoldsFrom texts 0 [] start logs_ok h in
      (
        d',
        rw newest (try_generations-accepted 0 [] start d' same),
        rw (empty, replay_text-nil ext []) entries,
        fine,
      )
  load_all-HoldsFrom (suc n) snap texts d snaps_ok logs_ok ((older, newest), found) h =
      let start = record d { disk = record d.disk { temps = [] }; snap_size = length snap } in
      let (d', same, entries, fine) =
        logs_from-HoldsFrom texts (suc n) (replay_text ext snap []) start logs_ok h in
      (
        d',
        rw newest (
            try_generations-accepted (suc n) older _ d'
              (replay_generation-snap n snap _ (snaps_ok (suc n)) found ∙ same)),
        entries,
        fine,
      )

  -- A restart gives back the memory: if the current log has whole lines and replays, over the
  -- newest snapshot, to what agrees with the memory, if the current log is the one behind that
  -- snapshot (log 1 where there is none), the log after it is not there and every file can be read,
  -- then loading ends with a database that at `now` has the keys of the memory with the same
  -- values, types, expiries and vectors, expired entries aside, and whose JSON entries have what
  -- their values parse to in their caches; agreement, too, is that of values, types, expiries and
  -- vectors, and the times of creation and update are not compared.
  pub load_all-IsDurable :
      (now : ℤ) (n : ℕ) (snap : Text) (d : Db)
      → ((k : ℕ) → reads.snap_ok k ≡ true)
      → ((k : ℕ) → reads.log_ok k ≡ true)
      → IsNewest n snap d.disk.snaps
      → or_else d.aof d.num ≡ n + 1
      → file_get (n + 1 + 1) d.disk.logs ≡ none
      → IsDurable ext now (replay_text ext snap []) d
      → (d' : Db) × (load_all ext reads d ≡ some d') × Restored ext now d'.entries d.entries
  load_all-IsDurable now n snap d snaps_ok logs_ok newest num next durable =
      elim (Option-cases (file_get (n + 1) d.disk.logs)) [
        | inl e ↦
            let (d', same, entries, fine) =
              load_all-HoldsFrom n snap [] d snaps_ok logs_ok newest e in
            let log : log_text d ≡ [] = rw num (rw e refl) in
            (
              d',
              same,
              (
                rw entries
                    (rw (log, replay_text-nil ext (replay_text ext snap [])) at durable.agree),
                rw entries (replay_texts-AllParsed ext snap []),
              ),
            )
        | inr (text, e) ↦
            let (d', same, entries, fine) =
              load_all-HoldsFrom n snap (text ∷ []) d snaps_ok logs_ok newest (e, next) in
            let log : log_text d ≡ text = rw num (rw e refl) in
            (
              d',
              same,
              (
                rw entries (rw log at durable.agree),
                rw entries (replay_texts-AllParsed ext snap (text ∷ [])),
              ),
            )
      ]
