-- ===== src/Store/Load.antt =====
-- Loading a database from its files: `loadAll`, `replayGeneration` and `ensureLoaded` of
-- core/store/store.go, and `snapNumbers` of core/store/gc.go.
use torii_db.Base.{
  ℕ, zero, suc, ◌+◌, ◌-◌, ◌≤◌, ◌<◌, max, Dict, Bool, true, false, Option, none, some, List, [], ◌∷◌,
  length, ltb, if◌then◌else◌, ◌≡◌, ◌≢◌, refl, arith, Option-cases, inl, inr,
}
use torii_db.Base.Sort.{sort}
use torii_db.External.{External}
use torii_db.Store.Entry.{Entry}
use torii_db.Store.Replay.{replay_text, replay_into}
use torii_db.Store.Db.{Files, Db, file_get, text_of, name_limit}

-- Which files can be read to their end.
pub record Reads : Type 0 where
  pub snap_ok : ℕ → Bool
  pub log_ok : ℕ → Bool

-- What the loop of `replayGeneration` comes to: the entries, the size of the last log, and the
-- number behind it.
pub data Logs : Type 0 where
  replayed : Dict Entry → ℕ → ℕ → Logs
  unreadable : Logs
  out_of_fuel : Logs

abbrev pub numbers : Files → List ℕ
numbers [] = []
numbers ((n, text) ∷ fs) = n ∷ numbers fs

-- The numbers whose names `parseName` reads.
unfoldable pub listed : List ℕ → List ℕ
listed [] = []
listed (n ∷ ns) = let rest = listed ns in if ltb n name_limit then n ∷ rest else rest

-- The snapshots, the newest first.
unfoldable pub snap_numbers : Files → List ℕ
snap_numbers fs = sort (λ a b. ltb b a) (listed (numbers fs))

-- One more than every number.
abbrev pub above : Files → ℕ
above [] = 0
above ((n, text) ∷ fs) = max (suc n) (above fs)

-- A generation is loaded or rejected; `no_fuel` does not happen.
pub data Generation : Type 0 where
  accepted rejected : Db → Generation
  no_fuel : Generation

module _ (ext : External) (reads : Reads) where
  unfoldable pub replay_logs : ℕ → Files → ℕ → Dict Entry → ℕ → Logs
  replay_logs zero logs num m size = out_of_fuel
  replay_logs (suc fuel) logs num m size = elim (file_get num logs) [
    | none ↦ replayed m size num
    | some text ↦
        let rest = replay_logs fuel logs (num + 1) (replay_text ext text m) (length text) in
        if reads.log_ok num then rest else unreadable
  ]

  unfoldable pub finish_generation : ℕ → Db → Logs → Generation
  finish_generation n d (replayed m size num) =
      accepted
        (record d { load_err = false; entries = m; log_size = size; num = max (num - 1) (n + 1) })
  finish_generation n d unreadable = rejected (record d { load_err = true })
  finish_generation n d out_of_fuel = no_fuel

  -- There is no log numbered `above logs`, so this much fuel is enough.
  unfoldable pub logs_from : ℕ → Dict Entry → Db → Generation
  logs_from n m d =
      finish_generation n d (replay_logs (suc (above d.disk.logs)) d.disk.logs (n + 1) m 0)

  unfoldable pub replay_generation : ℕ → Db → Generation
  replay_generation zero d = logs_from 0 [] d
  replay_generation (suc n) d =
      let snap = file_get (suc n) d.disk.snaps in
      elim (replay_into ext (reads.snap_ok (suc n)) snap []) [
        | none ↦ rejected (record d { load_err = true })
        | some m ↦ logs_from (suc n) m (record d { snap_size = length (text_of snap) })
      ]

  unfoldable pub try_generations : List ℕ → Db → Option Db
  try_generations [] d = some d
  try_generations (n ∷ ns) d = elim (replay_generation n d) [
    | accepted d' ↦ some d'
    | rejected d' ↦ try_generations ns d'
    | no_fuel ↦ none
  ]

  -- With no snapshot there is the generation 0, which has logs only.
  unfoldable pub first_generation : List ℕ → Db → Option Db
  first_generation [] d = try_generations (0 ∷ []) d
  first_generation (n ∷ ns) d = try_generations (n ∷ ns) d

  -- Temporary files are removed first.
  unfoldable pub load_all : Db → Option Db
  load_all d =
      first_generation (snap_numbers d.disk.snaps)
        (record d { disk = record d.disk { temps = [] } })

  unfoldable pub mark_loaded : Option Db → Db → Db
  mark_loaded none d = d
  mark_loaded (some d') d = record d' { loaded = true }

  unfoldable pub ensure_loaded : Db → Db
  ensure_loaded d = if d.loaded then d else mark_loaded (load_all d) d

absent_above : (n : ℕ) (fs : Files) → above fs ≤ n → file_get n fs ≡ none
unfolding file_get
absent_above n [] h = refl
absent_above n ((m, text) ∷ fs) h = ground (arith, absent_above n fs)

-- With fuel beyond the last number the loop ends by itself.
pub replay_logs-ne-out_of_fuel :
    (ext : External) (reads : Reads) (fuel : ℕ) (logs : Files) (num : ℕ) (m : Dict Entry) (size : ℕ)
    → 0 < fuel
    → above logs < fuel + num
    → replay_logs ext reads fuel logs num m size ≢ out_of_fuel
unfolding replay_logs
replay_logs-ne-out_of_fuel ext reads zero logs num m size p h = elim p [ ]
replay_logs-ne-out_of_fuel ext reads (suc fuel) logs num m size p h =
    elim (Option-cases (file_get num logs)) [
      | inl e ↦ ground arith
      | inr (text, e) ↦ ground (
        arith,
        replay_logs-ne-out_of_fuel ext reads fuel logs (num + 1) (replay_text ext text m)
            (length text),
        absent_above num logs,
      )
    ]

module _ (ext : External) (reads : Reads) where
  finish_generation-ne-no_fuel :
      (n : ℕ) (d : Db) (l : Logs) → l ≢ out_of_fuel → finish_generation ext reads n d l ≢ no_fuel
  unfolding finish_generation
  finish_generation-ne-no_fuel n d (replayed m size num) h = cc
  finish_generation-ne-no_fuel n d unreadable h = cc
  finish_generation-ne-no_fuel n d out_of_fuel h = absurd (h refl)

  logs_from-ne-no_fuel : (n : ℕ) (m : Dict Entry) (d : Db) → logs_from ext reads n m d ≢ no_fuel
  unfolding logs_from
  logs_from-ne-no_fuel n m d =
      finish_generation-ne-no_fuel n d _
        (replay_logs-ne-out_of_fuel ext reads _ d.disk.logs (n + 1) m 0 (omega arith) (omega arith))

  replay_generation-ne-no_fuel : (n : ℕ) (d : Db) → replay_generation ext reads n d ≢ no_fuel
  unfolding replay_generation
  replay_generation-ne-no_fuel zero d = logs_from-ne-no_fuel 0 [] d
  replay_generation-ne-no_fuel (suc n) d =
      elim (Option-cases
        (replay_into ext (reads.snap_ok (suc n)) (file_get (suc n) d.disk.snaps) [])) [
          | inl e ↦ ground arith
          | inr (m, e) ↦ ground (
            arith,
            logs_from-ne-no_fuel (suc n) m
                (record d { snap_size = length (text_of (file_get (suc n) d.disk.snaps)) }),
          )
        ]

  try_generations-total :
      (ns : List ℕ) (d : Db) → (d' : Db) × (try_generations ext reads ns d ≡ some d')
  unfolding try_generations
  try_generations-total [] d = (d, refl)
  try_generations-total (n ∷ ns) d =
      outcome (replay_generation ext reads n d) refl (try_generations-total ns)
    where
      outcome :
          (g : Generation)
          → replay_generation ext reads n d ≡ g
          → ((r : Db) → (d' : Db) × (try_generations ext reads ns r ≡ some d'))
          → (d' : Db) × (try_generations ext reads (n ∷ ns) d ≡ some d')
      outcome (accepted a) e older = (a, ground arith)
      outcome (rejected r) e older = let (d', same) = older r in (d', ground arith)
      outcome no_fuel e older = absurd (replay_generation-ne-no_fuel n d e)

  first_generation-total :
      (ns : List ℕ) (d : Db) → (d' : Db) × (first_generation ext reads ns d ≡ some d')
  unfolding first_generation
  first_generation-total [] d = try_generations-total (0 ∷ []) d
  first_generation-total (n ∷ ns) d = try_generations-total (n ∷ ns) d

  -- Loading ends with a database, whatever snapshots and logs there are and whichever of them can
  -- be read: the fuel of the loop over the logs is enough.
  pub load_all-total : (d : Db) → (d' : Db) × (load_all ext reads d ≡ some d')
  unfolding load_all
  load_all-total d = first_generation-total _ _
