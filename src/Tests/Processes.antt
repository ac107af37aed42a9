-- ===== src/Tests/Processes.antt =====
-- The theorems about starting and stopping a daemon, and the embedding client.
use torii_db.Base.{
  Bool, ℕ, ◌<◌, pos, Text, codes, true, false, none, some, List, [], ◌∷◌, length, is_empty,
  trim_space, ◌≡◌, refl, arith, is_some,
}
use torii_db.Daemon.Lifecycle.{
  Life, accept_conn, accept_fails, accepts, begin_stop, has, new_daemon, remove, run, start_unless,
  starts, step, stop_accepted, stop_begins, stop_closes, serve_ends, end_serve,
}
use torii_db.Daemon.Lifecycle.Closing.{
  Shutdown, CloseEvent, lives, close_begins, close_stopped, store_closes, running, begin_close,
  shut_store, close_step, run_close, is_orderly, is_orderly_run, run_close-idle,
}
use torii_db.Daemon.Lifecycle.Runs.{
  Run, Run-drained, restarted, start-forgets, stays, then_, waiting,
}
use torii_db.Daemon.Lifecycle.Stopping.{is_calm}
use torii_db.Daemon.Pool.{new_client}
use torii_db.Daemon.Socket.{
  Dirs, Sockets, Attempts, run_attempts, step_of, attempt_step, idle, stale, missing,
  resolve_socket, live, new, client_of, probe_socket, resolve_dir,
}
use torii_db.Daemon.Socket.Laws.{is_between, IsTurnedAway, run_attempts-exclusive}
use torii_db.Embedding.{
  check_vector, key_of, parsed, read_reply, send, Service, Client, embedding_client, embed, replied,
  Settings,
}
use torii_db.Embedding.Laws.{embed-dim}
use torii_db.Samples.{sample}
use torii_db.Store.Close.{close_store}
use torii_db.Store.Core.{no_disk, Core}
use torii_db.Tests.{age, io, two_db}

-- A connection comes while a Stop is under way, and is served until its end.
abbrev stopping_life : Life
stopping_life = record {
  listener = none;
  next = 1;
  conns = 7 ∷ [];
  serving = 7 ∷ [];
  closed = 7 ∷ [];
  accepting = [];
  awaiting = [];
  closing = 0;
  draining = 1;
}

stopping_life-Run : Run new_daemon stopping_life
unfolding step start_unless accept_conn begin_stop has remove is_calm
stopping_life-Run =
    then_
      (then_
        (then_
          (then_
            (then_ (then_ stays (starts true) refl (λ h. refl)) (accepts 0 7) refl (λ h. absurd cc))
            stop_begins refl (λ h. absurd cc))
          (accept_fails 0) refl (λ h. absurd cc))
        (stop_accepted 0) refl (λ h. absurd cc))
      stop_closes refl (λ h. absurd cc)

Run-drained_example :
    (0 < 1 → (conn : ℕ) → has conn (7 ∷ []) ≡ true → has conn (7 ∷ []) ≡ true)
    × (is_calm stopping_life ≡ false → stopping_life.listener ≡ none)
    × (stopping_life.listener ≡ none
        → is_calm stopping_life ≡ true
        → is_empty stopping_life.serving ≡ true)
Run-drained_example = Run-drained stopping_life stopping_life-Run

start-forgets_example :
    run (starts true ∷ stop_accepted 0 ∷ stop_closes ∷ []) (waiting 0 1 (7 ∷ []) (7 ∷ []) [])
    ≡ some (restarted 1 (7 ∷ []) [] [] 0 1)
start-forgets_example = start-forgets 0 1 (7 ∷ []) (7 ∷ []) [] (omega arith)

abbrev service : Service
service = record {
  marshal = λ r. some r.input;
  post = λ key body. replied 200 body;
  unmarshal = λ body. some ((1 ∷ 2 ∷ []) ∷ []);
}

abbrev settings : Settings
settings = record { env_key = codes " key "; keychain_key = []; env_dim = pos 2 }

abbrev client : Client
client = record { api_key = codes "key"; dim = 2; model = codes "text-embedding-3-small" }

abbrev two_words : List ℕ
two_words = 1 ∷ 2 ∷ []

embed-dim_example :
    (length two_words ≡ client.dim) × (0 < length two_words) × (is_empty (trim_space age) ≡ false)
unfolding embedding_client key_of trim_space embed send read_reply parsed check_vector
embed-dim_example = embed-dim settings [] service client age two_words refl refl

abbrev dirs : Dirs
dirs = record {
  check_dir = λ s. true;
  abs = λ s. some s;
  eval_symlinks = λ s. some (codes "/data");
}

abbrev no_sockets : Sockets
no_sockets path = missing

abbrev data_socket : Text
data_socket = resolve_socket sample 7 (codes "/data")

-- The daemon 0 listens where a stale socket stood; then 1 probes, and 0 takes one more step.
abbrev listened : Attempts
listened = run_attempts ((0, true) ∷ (0, true) ∷ (0, true) ∷ []) (stale, λ i. idle)

listened-live : listened.0 ≡ live
unfolding run_attempts step_of attempt_step probe_socket
listened-live = refl

listened-quiet : (i : ℕ) → is_between (listened.1 i) ≡ false
unfolding run_attempts step_of attempt_step probe_socket
listened-quiet i = ground arith

abbrev later_steps : List (ℕ × Bool)
later_steps = (1, true) ∷ (0, true) ∷ []

abbrev data_sockets : Sockets
data_sockets path = (run_attempts later_steps (live, listened.1)).0

run_attempts-exclusive_example :
    ((i : ℕ) → IsTurnedAway (listened.1 i) ((run_attempts later_steps (live, listened.1)).1 i))
    × (new sample dirs 7 settings (λ dir n. no_disk) data_sockets age []
        ≡ client_of (resolve_socket sample 7 (codes "/data")) new_client)
unfolding resolve_dir
run_attempts-exclusive_example =
    run_attempts-exclusive sample dirs 7 settings (λ dir n. no_disk) later_steps listened.1
      data_sockets (codes "/data") age [] listened-quiet refl refl refl

abbrev one_store : Core
one_store = record { dbs = two_db ∷ []; current = 0; embedder = none; jobs = [] }

-- A connection is served when a Close begins.
abbrev closing_events : List CloseEvent
closing_events =
    lives (starts true)
    ∷ lives (accepts 0 7)
    ∷ close_begins
    ∷ lives (accept_fails 0)
    ∷ lives (stop_accepted 0)
    ∷ lives stop_closes
    ∷ lives (serve_ends 7)
    ∷ close_stopped
    ∷ store_closes (λ n. io)
    ∷ []

abbrev closed_store : Shutdown
closed_store = record {
  life = record new_daemon { next = 1; closed = 7 ∷ 7 ∷ [] };
  core = (close_store sample (λ n. io) none one_store).0;
  stopping = 0;
  stopped = 0;
  result = some (close_store sample (λ n. io) none one_store).1;
}

run_close-idle_example :
    (is_empty closed_store.life.serving ≡ true) × (closed_store.life.listener ≡ none)
unfolding run_close close_step step start_unless accept_conn begin_close begin_stop has remove
    end_serve shut_store is_orderly_run is_orderly is_calm
run_close-idle_example = run_close-idle sample closing_events one_store closed_store refl refl refl

-- The second of two Closes that run at the same time closes the store while a connection is served.
second_close :
    (s : Shutdown) × (run_close sample
        (lives (starts true)
          ∷ lives (accepts 0 7)
          ∷ close_begins
          ∷ close_begins
          ∷ store_closes (λ n. io)
          ∷ [])
        (running one_store)
      ≡ some s)
    × (s.life.serving ≡ 7 ∷ [])
    × (is_some s.result ≡ true)
unfolding run_close close_step step start_unless accept_conn begin_close begin_stop has shut_store
second_close = (_, refl, refl, refl)
