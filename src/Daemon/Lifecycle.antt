-- ===== src/Daemon/Lifecycle.antt =====
-- `Start`, `accept`, `serve` and `Stop` of core/daemon/daemon.go, as the steps of the goroutines
-- between two uses of the mutex. Listeners and connections are numbers.
pub mod Runs
pub mod Stopping
pub mod Closing
use torii_db.Base.{
  ℕ, zero, suc, ◌+◌, ◌-◌, Bool, true, false, not, ◌&&◌, ◌||◌, Option, none, some, List, [], ◌∷◌,
  ◌++◌, ltb, ◌==◌, is_empty, if◌then◌else◌,
}

-- `serving` holds the connections whose goroutine runs, which the wait group counts; `accepting`
-- the listeners whose loop runs. A Stop waits for the loop of a listener in `awaiting`; then
-- `closing` and `draining` count the Stops before and behind their loop over the connections.
pub record Life : Type 0 where
  pub listener : Option ℕ
  pub next : ℕ
  pub conns : List ℕ
  pub serving : List ℕ
  pub closed : List ℕ
  pub accepting : List ℕ
  pub awaiting : List ℕ
  pub closing : ℕ
  pub draining : ℕ

abbrev pub new_daemon : Life
new_daemon = record {
  listener = none;
  next = 0;
  conns = [];
  serving = [];
  closed = [];
  accepting = [];
  awaiting = [];
  closing = 0;
  draining = 0;
}

unfoldable pub has : ℕ → List ℕ → Bool
has x [] = false
has x (y ∷ ys) = x == y || has x ys

unfoldable pub remove : ℕ → List ℕ → List ℕ
remove x [] = []
remove x (y ∷ ys) = if x == y then remove x ys else y ∷ remove x ys

abbrev pub is_listening : Option ℕ → ℕ → Bool
is_listening none g = false
is_listening (some h) g = g == h

-- `starts` is given whether the socket can be listened on.
pub data Event : Type 0 where
  starts : Bool → Event
  accepts : ℕ → ℕ → Event
  accept_fails serve_ends : ℕ → Event
  stop_begins : Event
  stop_accepted : ℕ → Event
  stop_closes stop_returns : Event

unfoldable pub start_unless : Bool → Option ℕ → Life → Life
start_unless listens (some g) l = l
start_unless false none l = l
start_unless true none l = record l {
  listener = some l.next;
  next = l.next + 1;
  conns = [];
  accepting = l.next ∷ l.accepting;
}

unfoldable pub accept_conn : ℕ → ℕ → Life → Life
accept_conn g conn l =
    if is_listening l.listener g
    then record l { conns = conn ∷ l.conns; serving = conn ∷ l.serving }
    else record l { closed = conn ∷ l.closed; accepting = remove g l.accepting }

unfoldable pub end_serve : ℕ → Life → Life
end_serve conn l = record l {
  closed = conn ∷ l.closed;
  conns = remove conn l.conns;
  serving = remove conn l.serving;
}

unfoldable pub begin_stop : Option ℕ → Life → Life
begin_stop none l = l
begin_stop (some g) l = record l { listener = none; awaiting = g ∷ l.awaiting }

abbrev pub if_can : Bool → Life → Option Life
if_can true l = some l
if_can false l = none

-- `none`: the event cannot happen here.
unfoldable pub step : Event → Life → Option Life
step (starts listens) l = some (start_unless listens l.listener l)
step (accepts g conn) l = if_can (has g l.accepting) (accept_conn g conn l)
step (accept_fails g) l = if_can (has g l.accepting) (record l { accepting = remove g l.accepting })
step (serve_ends conn) l = if_can (has conn l.serving) (end_serve conn l)
step stop_begins l = some (begin_stop l.listener l)
step (stop_accepted g) l =
    if_can (has g l.awaiting && not (has g l.accepting))
      (record l { awaiting = remove g l.awaiting; closing = l.closing + 1 })
step stop_closes l =
    if_can (ltb 0 l.closing) (record l {
      closed = l.conns ++ l.closed;
      closing = l.closing - 1;
      draining = l.draining + 1;
    })
step stop_returns l =
    if_can (ltb 0 l.draining && is_empty l.serving) (record l { draining = l.draining - 1 })

unfoldable pub run : List Event → Life → Option Life
run [] l = some l
run (e ∷ es) l = elim (step e l) [ none ↦ none | some after ↦ run es after ]
