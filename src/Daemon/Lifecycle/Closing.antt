-- ===== src/Daemon/Lifecycle/Closing.antt =====
-- `Close` of core/daemon/daemon.go in the process of the store: a Stop, then the Close of the
-- store, as steps between those of the other goroutines.
use torii_db.Base.{
  ℕ, ◌+◌, ◌-◌, Bool, true, false, not, ◌&&◌, ◌||◌, Option, none, some, List, [], ◌∷◌, ltb, is_empty,
  is_some, if◌then◌else◌, ◌≡◌, and-eq-true, refl, ap, arith, Bool-cases, Option-cases, inl, inr,
}
use mathlib.Core.Option.{some-injective}
use mathlib.Core.Path.{subst}
use torii_db.Daemon.Lifecycle.{
  Life, new_daemon, has, is_listening, Event, starts, accepts, accept_fails, serve_ends,
  stop_begins, stop_accepted, stop_closes, stop_returns, accept_conn, end_serve, begin_stop, if_can,
  step,
}
use torii_db.Daemon.Lifecycle.Stopping.{
  is_calm, IsLive, new_daemon-IsLive, begin_stop-IsLive, empty-remove,
}
use torii_db.Daemon.Lifecycle.Runs.{is_start, step-IsLive}
use torii_db.External.{External}
use torii_db.Store.Close.{close_store}
use torii_db.Store.Core.{Core}
use torii_db.Store.Db.{Error, Io}

-- `stopping` counts the Closes in their Stop, `stopped` those behind it; `result` is what the first
-- Close of the store came to.
pub record Shutdown : Type 0 where
  pub life : Life
  pub core : Core
  pub stopping : ℕ
  pub stopped : ℕ
  pub result : Option (Option Error)

pub data CloseEvent : Type 0 where
  lives : Event → CloseEvent
  close_begins close_stopped : CloseEvent
  store_closes : (ℕ → Io) → CloseEvent

abbrev pub running : Core → Shutdown
running c = record { life = new_daemon; core = c; stopping = 0; stopped = 0; result = none }

-- The first steps of its Stop, which returns at once if there is no listener.
unfoldable pub begin_close : Option ℕ → Shutdown → Shutdown
begin_close none s = record s { stopped = s.stopped + 1 }
begin_close (some g) s = record s { life = begin_stop (some g) s.life; stopping = s.stopping + 1 }

abbrev with_life : Shutdown → Option Life → Option Shutdown
with_life s none = none
with_life s (some l) = some (record s { life = l })

abbrev past_stop : Shutdown → Shutdown
past_stop s = record s { stopping = s.stopping - 1; stopped = s.stopped + 1 }

module _ (ext : External) where
  unfoldable pub shut_store : (ℕ → Io) → Shutdown → Shutdown
  shut_store env s =
      let (core, err) = close_store ext env s.result s.core in
      record s { core = core; stopped = s.stopped - 1; result = some err }

  -- `none`: the event cannot happen here.
  unfoldable pub close_step : CloseEvent → Shutdown → Option Shutdown
  close_step (lives e) s = with_life s (step e s.life)
  close_step close_begins s = some (begin_close s.life.listener s)
  close_step close_stopped s =
      if ltb 0 s.stopping then with_life (past_stop s) (step stop_returns s.life) else none
  close_step (store_closes env) s = if ltb 0 s.stopped then some (shut_store env s) else none

  unfoldable pub run_close : List CloseEvent → Shutdown → Option Shutdown
  run_close [] s = some s
  run_close (e ∷ es) s = elim (close_step e s) [ none ↦ none | some after ↦ run_close es after ]

-- A Close is past its Stop, or the store is closed; or a Close has begun.
abbrev pub is_past_stop : Shutdown → Bool
is_past_stop s = ltb 0 s.stopped || is_some s.result

abbrev pub has_begun : Shutdown → Bool
has_begun s = ltb 0 s.stopping || is_past_stop s

-- A Start, or a first step of a Close, does not come between the steps of a Stop, and no Start
-- comes once a Close has begun.
unfoldable pub is_orderly : CloseEvent → Shutdown → Bool
is_orderly (lives e) s = not (is_start e) || (is_calm s.life && not (has_begun s))
is_orderly close_begins s = is_calm s.life
is_orderly _ s = true

record IsShut (s : Shutdown) : Type 0 where
  live : IsLive s.life
  quiet : has_begun s ≡ true → s.life.listener ≡ none
  idle : is_past_stop s ≡ true → is_empty s.life.serving ≡ true

-- With no listener, no step but a Start listens again or serves one more connection.
record StaysQuiet (l after : Life) : Type 0 where
  listens : after.listener ≡ none
  serves : is_empty l.serving ≡ true → is_empty after.serving ≡ true

if_can-StaysQuiet :
    (b : Bool) (l m after : Life) → if_can b m ≡ some after → StaysQuiet l m → StaysQuiet l after
if_can-StaysQuiet true l m after e h = subst (StaysQuiet l) (some-injective _ _ e) h
if_can-StaysQuiet false l m after e h = absurd cc

step-StaysQuiet :
    (e : Event) (l after : Life)
    → step e l ≡ some after
    → is_start e ≡ false
    → l.listener ≡ none
    → StaysQuiet l after
unfolding step
step-StaysQuiet (starts listens) l after h other off = absurd cc
step-StaysQuiet (accepts g conn) l after h other off =
    if_can-StaysQuiet (has g l.accepting) l (accept_conn g conn l) after h (
      unfold accept_conn in
      let deaf : is_listening l.listener g ≡ false = ap (λ o. is_listening o g) off in
      rw deaf (record { listens = off; serves = λ k. k }))
step-StaysQuiet (accept_fails g) l after h other off =
    if_can-StaysQuiet _ l _ after h (record { listens = off; serves = λ k. k })
step-StaysQuiet (serve_ends conn) l after h other off =
    if_can-StaysQuiet (has conn l.serving) l (end_serve conn l) after h
      (unfold end_serve in record { listens = off; serves = λ k. empty-remove conn l.serving k })
step-StaysQuiet stop_begins l after h other off =
    subst (StaysQuiet l) (some-injective _ _ h)
      (unfold begin_stop in rw off (record { listens = refl; serves = λ k. k }))
step-StaysQuiet (stop_accepted g) l after h other off =
    if_can-StaysQuiet _ l _ after h (record { listens = off; serves = λ k. k })
step-StaysQuiet stop_closes l after h other off =
    if_can-StaysQuiet _ l _ after h (record { listens = off; serves = λ k. k })
step-StaysQuiet stop_returns l after h other off =
    if_can-StaysQuiet _ l _ after h (record { listens = off; serves = λ k. k })

step-IsShut :
    (e : Event) (s : Shutdown) (l : Life)
    → step e s.life ≡ some l
    → is_orderly (lives e) s ≡ true
    → IsShut s
    → IsShut (record s { life = l })
unfolding is_orderly
step-IsShut e s l h orderly i =
    let live = step-IsLive e s.life l h (λ start. ground (arith, start, orderly)) i.live in
    elim (Bool-cases (is_start e)) [
      | inl start ↦
          let fresh : has_begun s ≡ false = ground (arith, start, orderly) in
          record {
            live = live;
            quiet = λ k. absurd (ground (arith, k, fresh));
            idle = λ k. absurd (ground (arith, k, fresh));
          }
      | inr other ↦ record {
        live = live;
        quiet = λ k. (step-StaysQuiet e s.life l h other (i.quiet k)).listens;
        idle = λ k.
            (step-StaysQuiet e s.life l h other (i.quiet (ground (arith, k)))).serves (i.idle k);
      }
    ]

begin_close-IsShut :
    (s : Shutdown) → is_calm s.life ≡ true → IsShut s → IsShut (begin_close s.life.listener s)
unfolding begin_stop
begin_close-IsShut s calm i = of s.life.listener refl
  where
    of : (o : Option ℕ) → s.life.listener ≡ o → IsShut (begin_close o s)
    of none there =
        unfold begin_close in
        record { live = i.live; quiet = λ k. there; idle = λ k. i.live.at_rest there calm }
    of (some g) there =
        let begun = begin_stop-IsLive s.life i.live in
        unfold begin_close in
        record { live = rw there at begun; quiet = λ k. refl; idle = λ k. i.idle k }

with_life-IsShut :
    (s after : Shutdown) (o : Option Life)
    → with_life s o ≡ some after
    → ((l : Life) → o ≡ some l → IsShut (record s { life = l }))
    → IsShut after
with_life-IsShut s after none h k = absurd cc
with_life-IsShut s after (some l) h k = subst IsShut (some-injective _ _ h) (k l refl)

if_can-holds : (b : Bool) (l after : Life) → if_can b l ≡ some after → b ≡ true
if_can-holds true l after e = refl
if_can-holds false l after e = absurd cc

none_served : (m after : Life) → step stop_returns m ≡ some after → is_empty m.serving ≡ true
unfolding step
none_served m after e =
    let can = if_can-holds (ltb 0 m.draining && is_empty m.serving) _ after e in ground (arith, can)

-- A Stop returns when no connection is served.
return-IsShut :
    (s : Shutdown) (l : Life)
    → step stop_returns s.life ≡ some l
    → ltb 0 s.stopping ≡ true
    → IsShut s
    → IsShut (record (past_stop s) { life = l })
return-IsShut s l h inside i =
    let live = step-IsLive stop_returns s.life l h (λ start. absurd cc) i.live in
    let off = i.quiet (ground (arith, inside)) in
    let still = step-StaysQuiet stop_returns s.life l h refl off in
    record {
      live = live;
      quiet = λ k. still.listens;
      idle = λ k. still.serves (none_served s.life l h);
    }

close_step-IsShut :
    (ext : External) (e : CloseEvent) (s after : Shutdown)
    → close_step ext e s ≡ some after
    → is_orderly e s ≡ true
    → IsShut s
    → IsShut after
unfolding close_step is_orderly
close_step-IsShut ext (lives e) s after h orderly i =
    with_life-IsShut s after (step e s.life) h
      (λ l there. step-IsShut e s l there (unfold is_orderly in orderly) i)
close_step-IsShut ext close_begins s after h orderly i =
    subst IsShut (some-injective _ _ h) (begin_close-IsShut s orderly i)
close_step-IsShut ext close_stopped s after h orderly i = elim (Bool-cases (ltb 0 s.stopping)) [
  | inl inside ↦
      with_life-IsShut (past_stop s) after (step stop_returns s.life) (rw inside at h)
        (λ l there. return-IsShut s l there inside i)
  | inr outside ↦
      absurd (let bad : ◌≡◌ {A = Option Shutdown} none (some after) = rw outside at h in cc)
]
close_step-IsShut ext (store_closes env) s after h orderly i = elim (Bool-cases (ltb 0 s.stopped)) [
  | inl ready ↦
      let past : is_past_stop s ≡ true = ground (arith, ready) in
      let same : some (shut_store ext env s) ≡ some after = rw ready at h in
      subst IsShut (some-injective _ _ same) (
        unfold shut_store in
        record {
          live = i.live;
          quiet = λ k. i.quiet (ground (arith, past));
          idle = λ k. i.idle past;
        })
  | inr outside ↦
      absurd (let bad : ◌≡◌ {A = Option Shutdown} none (some after) = rw outside at h in cc)
]

-- Every event of a run comes where it is orderly.
unfoldable pub is_orderly_run : External → List CloseEvent → Shutdown → Bool
is_orderly_run ext [] s = true
is_orderly_run ext (e ∷ es) s = elim (close_step ext e s) [
  | none ↦ true
  | some after ↦ is_orderly e s && is_orderly_run ext es after
]

run_close-IsShut :
    (ext : External) (es : List CloseEvent) (s after : Shutdown)
    → run_close ext es s ≡ some after
    → is_orderly_run ext es s ≡ true
    → IsShut s
    → IsShut after
unfolding run_close is_orderly_run
run_close-IsShut ext [] s after h orderly i = subst IsShut (some-injective _ _ h) i
run_close-IsShut ext (e ∷ es) s after h orderly i = elim (Option-cases (close_step ext e s)) [
  | inl stuck ↦
      absurd
        (let bad : ◌≡◌ {A = Option Shutdown} none (some after) = rw (run_close, stuck) at h in cc)
  | inr (m, there) ↦
      let both : (is_orderly e s && is_orderly_run ext es m) ≡ true =
        rw (is_orderly_run, there) at orderly in
      run_close-IsShut ext es m after (rw (run_close, there) at h) (and-eq-true both).1
        (close_step-IsShut ext e s m there (and-eq-true both).0 i)
]

running-IsShut : (c : Core) → IsShut (running c)
running-IsShut c = record { live = new_daemon-IsLive; quiet = λ k. refl; idle = λ k. refl }

-- When a Close of a daemon has closed the store, no connection is served and no listener is open,
-- whatever the other goroutines do, if no Start and no first step of a Close comes between the
-- steps of a Stop, and no Start comes once a Close has begun.
pub run_close-idle :
    (ext : External) (es : List CloseEvent) (c : Core) (s : Shutdown)
    → run_close ext es (running c) ≡ some s
    → is_orderly_run ext es (running c) ≡ true
    → is_some s.result ≡ true
    → (is_empty s.life.serving ≡ true) × (s.life.listener ≡ none)
run_close-idle ext es c s h orderly closed =
    let i = run_close-IsShut ext es (running c) s h orderly (running-IsShut c) in
    (i.idle (ground (arith, closed)), i.quiet (ground (arith, closed)))
