-- ===== src/Daemon/Lifecycle/Runs.antt =====
-- Runs of a daemon: what a Stop waits for, and a Start that comes between its steps.
use mathlib.Core.Option.{some-injective}
use mathlib.Core.Path.{subst}
use torii_db.Base.{
  ℕ, ◌+◌, ◌<◌, Bool, true, false, Option, none, some, List, [], ◌∷◌, ◌==◌, is_empty, ◌≡◌, refl,
  arith, and-eq-true,
}
use torii_db.Daemon.Lifecycle.{
  Life, new_daemon, has, remove, Event, starts, accepts, accept_fails, serve_ends, stop_begins,
  stop_accepted, stop_closes, stop_returns, start_unless, if_can, step, run,
}
use torii_db.Daemon.Lifecycle.Stopping.{
  is_calm, IsLive, new_daemon-IsLive, start-IsLive, accepts-IsLive, accept_fails-IsLive,
  serve_ends-IsLive, begin_stop-IsLive, stop_accepted-IsLive, stop_closes-IsLive,
  stop_returns-IsLive,
}

if_can-IsLive :
    (b : Bool) (l after : Life) → if_can b l ≡ some after → (b ≡ true → IsLive l) → IsLive after
if_can-IsLive true l after e h = subst IsLive (some-injective _ _ e) (h refl)
if_can-IsLive false l after e h = absurd cc

abbrev pub is_start : Event → Bool
is_start (starts listens) = true
is_start _ = false

pub step-IsLive :
    (e : Event) (l after : Life)
    → step e l ≡ some after
    → (is_start e ≡ true → is_calm l ≡ true)
    → IsLive l
    → IsLive after
unfolding step
step-IsLive (starts listens) l after h calm i =
    subst IsLive (some-injective _ _ h) (start-IsLive listens l (calm refl) i)
step-IsLive (accepts g conn) l after h calm i =
    if_can-IsLive _ _ after h (λ can. accepts-IsLive g conn l i)
step-IsLive (accept_fails g) l after h calm i =
    if_can-IsLive _ _ after h (λ can. accept_fails-IsLive g l i)
step-IsLive (serve_ends conn) l after h calm i =
    if_can-IsLive _ _ after h (λ can. serve_ends-IsLive conn l i)
step-IsLive stop_begins l after h calm i =
    subst IsLive (some-injective _ _ h) (begin_stop-IsLive l i)
step-IsLive (stop_accepted g) l after h calm i =
    if_can-IsLive _ _ after h (λ can. stop_accepted-IsLive g l (and-eq-true can).0 i)
step-IsLive stop_closes l after h calm i =
    if_can-IsLive _ _ after h (λ can. stop_closes-IsLive l (ground arith) i)
step-IsLive stop_returns l after h calm i =
    if_can-IsLive _ _ after h
      (λ can. stop_returns-IsLive l (ground (arith, can)) (ground (arith, can)) i)

-- Steps of a daemon on which no Start comes between the steps of a Stop.
pub data Run : Life → Life → Type 0 where
  stays : {l : Life} → Run l l
  then_ :
      {l m after : Life}
      → Run l m
      → (e : Event) → step e m ≡ some after
      → (is_start e ≡ true → is_calm m ≡ true)
      → Run l after

Run-IsLive : (l after : Life) → Run l after → IsLive l → IsLive after
Run-IsLive l _ stays i = i
Run-IsLive l after (then_ {m} r e h calm) i = step-IsLive e m after h calm (Run-IsLive l m r i)

-- In every state that a daemon reaches when no Start comes between the steps of a Stop: a Stop that
-- waits for the goroutines of connections waits for closed connections only, a Stop under way means
-- no listener, and with no listener and no Stop no connection is served.
pub Run-drained :
    (l : Life)
    → Run new_daemon l
    → (0 < l.draining → (conn : ℕ) → has conn l.serving ≡ true → has conn l.closed ≡ true)
      × (is_calm l ≡ false → l.listener ≡ none)
      × (l.listener ≡ none → is_calm l ≡ true → is_empty l.serving ≡ true)
Run-drained l r =
    let i = Run-IsLive new_daemon l r new_daemon-IsLive in (i.drained, i.stopping, i.at_rest)

-- A daemon whose Stop waits for the accept loop of `g`, which has ended.
abbrev pub waiting : ℕ → ℕ → List ℕ → List ℕ → List ℕ → Life
waiting g next conns serving closed = record {
  listener = none;
  next = next;
  conns = conns;
  serving = serving;
  closed = closed;
  accepting = [];
  awaiting = g ∷ [];
  closing = 0;
  draining = 0;
}

-- The same behind a Start, with the steps of the Stop so far.
abbrev pub restarted : ℕ → List ℕ → List ℕ → List ℕ → ℕ → ℕ → Life
restarted next serving closed awaiting closing draining = record {
  listener = some next;
  next = next + 1;
  conns = [];
  serving = serving;
  closed = closed;
  accepting = next ∷ [];
  awaiting = awaiting;
  closing = closing;
  draining = draining;
}

run-step :
    (e : Event) (es : List Event) (l after : Life) (end_ : Option Life)
    → step e l ≡ some after
    → run es after ≡ end_
    → run (e ∷ es) l ≡ end_
unfolding run
run-step e es l after end_ h k = rw (run, h) k

-- The Stop is past the accept loop, whose number is not the new one's.
stop_accepted-restarted :
    (g next : ℕ) (serving closed : List ℕ)
    → g < next
    → step (stop_accepted g) (restarted next serving closed (g ∷ []) 0 0)
      ≡ some (restarted next serving closed [] 1 0)
unfolding step has remove
stop_accepted-restarted g next serving closed old =
    let same : (g == g) ≡ true = ground arith in
    let other : (g == next) ≡ false = ground arith in rw (same, other) refl

-- If a Start comes while a Stop waits for the accept loop, that Stop then closes none of the
-- connections that are served, and goes on to wait for them, while the new listener runs.
pub start-forgets :
    (g next : ℕ) (conns serving closed : List ℕ)
    → g < next
    → run (starts true ∷ stop_accepted g ∷ stop_closes ∷ []) (waiting g next conns serving closed)
      ≡ some (restarted next serving closed [] 0 1)
unfolding step start_unless run
start-forgets g next conns serving closed old =
    run-step (starts true) (stop_accepted g ∷ stop_closes ∷ [])
      (waiting g next conns serving closed) (restarted next serving closed (g ∷ []) 0 0) _ refl
      (run-step (stop_accepted g) (stop_closes ∷ []) (restarted next serving closed (g ∷ []) 0 0)
        (restarted next serving closed [] 1 0) _ (stop_accepted-restarted g next serving closed old)
        refl)
