-- ===== src/Daemon/Socket/Laws.antt =====
-- A directory has one server, if the attempts to listen on its socket do not meet.
use mathlib.Core.Path.{subst}
use torii_db.Base.{
  sym, ap, ℕ, Text, Bool, true, false, some, List, [], ◌∷◌, is_empty, ◌==◌, ◌≡◌, ◌⊎◌, inl, inr,
  refl, arith, Bool-cases, if◌then◌else◌, ◌∙◌,
}
use torii_db.External.{External}
use torii_db.Daemon.Pool.{new_client}
use torii_db.Daemon.Socket.{
  AtPath, live, missing, stale, probe_socket, listening, already_running, Attempt, idle, probed,
  removed, ended, attempt_step, Attempts, step_of, run_attempts, Sockets, Dirs, resolve_dir,
  resolve_socket, client_of, made_at, made_in, new,
}
use torii_db.Embedding.{Settings}
use torii_db.Store.Db.{Disk}

-- An attempt that may still remove the socket or bind it.
abbrev pub is_between : Attempt → Bool
is_between idle = false
is_between probed = true
is_between removed = true
is_between (ended result) = false

-- An attempt is where it was, or has found the daemon running.
abbrev pub IsTurnedAway : Attempt → Attempt → Type 0
IsTurnedAway before after = (after ≡ before) ⊎ (after ≡ ended already_running)

IsTurnedAway-trans : (a b c : Attempt) → IsTurnedAway a b → IsTurnedAway b c → IsTurnedAway a c
IsTurnedAway-trans a b c h (inl same) = rw same h
IsTurnedAway-trans a b c h (inr away) = inr away

-- A step of an attempt, where a daemon listens.
attempt_step-live :
    (ok : Bool) (a : Attempt)
    → is_between a ≡ false
    → ((attempt_step ok live a).0 ≡ live)
      × IsTurnedAway a (attempt_step ok live a).1
      × (is_between (attempt_step ok live a).1 ≡ false)
unfolding attempt_step probe_socket
attempt_step-live ok idle h = (refl, inr refl, refl)
attempt_step-live ok probed h = absurd cc
attempt_step-live ok removed h = absurd cc
attempt_step-live ok (ended result) h = (refl, inl refl, refl)

run_attempts-live :
    (steps : List (ℕ × Bool)) (attempts : ℕ → Attempt)
    → ((i : ℕ) → is_between (attempts i) ≡ false)
    → ((run_attempts steps (live, attempts)).0 ≡ live)
      × ((i : ℕ) → IsTurnedAway (attempts i) ((run_attempts steps (live, attempts)).1 i))
unfolding run_attempts step_of
run_attempts-live [] attempts quiet = (refl, λ i. inl refl)
run_attempts-live ((i, ok) ∷ steps) attempts quiet =
    let a = attempt_step ok live (attempts i) in
    let (still, away, out) = attempt_step-live ok (attempts i) (quiet i) in
    let after : ℕ → Attempt = λ j. if i == j then a.1 else attempts j in
    let moved : (j : ℕ) → IsTurnedAway (attempts j) (after j) × (is_between (after j) ≡ false) =
      λ j. elim (Bool-cases (i == j)) [
        | inl here ↦
            let same : i ≡ j = ground arith in
            let (there, gone, beside) = attempt_step-live ok (attempts j) (quiet j) in
            rw (here, same) (gone, beside)
        | inr other ↦ rw other (inl refl, quiet j)
      ] in
    let (stays, rest) = run_attempts-live steps after (λ j. (moved j).1) in
    let stepped : run_attempts ((i, ok) ∷ steps) (live, attempts)
        ≡ run_attempts steps (live, after) =
      ap (λ (s : AtPath). run_attempts steps (s, after)) still in
    (
      ap (λ (r : Attempts). r.0) stepped ∙ stays,
      λ j.
          IsTurnedAway-trans (attempts j) (after j) _ (moved j).0
            (subst (λ (r : Attempts). IsTurnedAway (after j) (r.1 j)) (sym stepped) (rest j)),
    )

-- Once a daemon listens on the socket of a directory and no other attempt to listen there is
-- between its probe and its bind, the socket stays the daemon's: whatever system calls of whatever
-- attempts follow in whatever order, every attempt stays where it was or finds the daemon running,
-- and a New with any spelling of that directory makes a client of that socket.
pub run_attempts-exclusive :
    (ext : External) (dirs : Dirs) (uid : ℕ) (settings : Settings) (disks : Text → ℕ → Disk)
    (steps : List (ℕ × Bool)) (attempts : ℕ → Attempt) (sockets : Sockets) (dir other : Text)
    (api_keys : List Text)
    → ((i : ℕ) → is_between (attempts i) ≡ false)
    → sockets (resolve_socket ext uid dir) ≡ (run_attempts steps (live, attempts)).0
    → resolve_dir dirs other ≡ some dir
    → is_empty other ≡ false
    → ((i : ℕ) → IsTurnedAway (attempts i) ((run_attempts steps (live, attempts)).1 i))
      × (new ext dirs uid settings disks sockets other api_keys
          ≡ client_of (resolve_socket ext uid dir) new_client)
unfolding new made_in made_at probe_socket
run_attempts-exclusive ext dirs uid settings disks steps attempts sockets dir other api_keys quiet
      at same named =
    let (stays, away) = run_attempts-live steps attempts quiet in
    let there : sockets (resolve_socket ext uid dir) ≡ live = at ∙ stays in
    (away, rw (named, same, there) refl)

-- Two attempts that both probe before the other's bind both listen, and the socket of the first is
-- gone.
listen_race :
    (s : AtPath)
    → (s ≡ missing) ⊎ (s ≡ stale)
    → let after =
        run_attempts
          ((0, true) ∷ (1, true) ∷ (0, true) ∷ (0, true) ∷ (1, true) ∷ (1, true) ∷ [])
          (s, λ i. idle) in
      (after.1 0 ≡ ended listening) × (after.1 1 ≡ ended listening)
unfolding run_attempts step_of attempt_step probe_socket
listen_race s (inl e) = rw e (refl, refl)
listen_race s (inr e) = rw e (refl, refl)
