-- ===== src/Tests/Daemon.antt =====
-- The theorems about requests and their way over a socket, at a store with one database, and a wire
-- that sends the operation of a request and the message of an error.
use torii_db.Base.{
  ℕ, zero, suc, ◌<◌, ◌++◌, pos, Text, codes, true, false, none, some, [], ◌∷◌, length, ◌≡◌, ◌≢◌,
  refl, inl, inr, arith, text_eq, trim_space,
}
use torii_db.Daemon.Api.{api_get, api_set, value}
use torii_db.Daemon.Api.Stored.{api_get-api_set}
use torii_db.Daemon.Call.{
  Attempt, arrived, broke, eof, exchange, network, read_failed, response, Exchange, Meets, call,
  received, call_error, dropped, decoded,
}
use torii_db.Daemon.Call.Laws.{call-answered, IsKept, call-IsKept}
use torii_db.Daemon.Content.{encode_content}
use torii_db.Daemon.Frames.{closed, read_frame, write_frame, failed, too_large}
use torii_db.Daemon.Frames.Laws.{
  read_frames, read_frames-write_frames, write_frames, read_frame-too_large,
}
use torii_db.Daemon.Handler.{dispatch, dispatch_selected, handle, handle_get, to_record}
use torii_db.Daemon.Handler.Frame.{IsOnDb, dispatch-IsOnDb}
use torii_db.Daemon.Pages.{answered, crashed, page_reply}
use torii_db.Daemon.Pages.Laws.{page_part, paged_reply, page_reply-crashed, page_reply-pages, pages}
use torii_db.Daemon.Pool.{new_client, take_conn, take_fresh}
use torii_db.Daemon.Protocol.{
  Wire, Request, Response, plain_request, failure, kind_not_found, op_get, empty_response,
  KeyRecord,
}
use torii_db.Daemon.Server.{Visit, local_call, no_frame, over_wire, returned, serve, unfinished}
use torii_db.Daemon.Server.Laws.{
  Answers, IsSent, no_more, request_frames, response_frames, serve-finished, serve-requests,
  then_more,
}
use torii_db.Daemon.Server.Remote.{remote-local}
use torii_db.Samples.{sample}
use torii_db.Store.Core.{on_db, select, Core, Env}
use torii_db.Store.Entry.{Entry}
use torii_db.Store.Heap.{set_elem}
use torii_db.Store.Load.{ensure_loaded}
use torii_db.Store.Set.Laws.{IsEntryOf}
use torii_db.Tests.{runs, io, age, size, two_db}

abbrev wire : Wire
wire = record {
  unmarshal_string = λ s. none;
  compact = λ s. some s;
  marshal_raw = λ s. some s;
  marshal_string = λ s. s;
  encode_request = λ r. r.op;
  decode_request = λ s. some (plain_request s (pos 0));
  encode_response = λ r. r.error;
  decode_response = λ s. some (failure kind_not_found s);
  describe = λ e. codes "error";
  marshal_failure = codes "marshal";
  quote = λ s. s;
}

abbrev env : Env
env = record {
  now = pos 20;
  later = pos 20;
  io = λ n. io;
  reads = λ n. record { snap_ok = λ k. true; log_ok = λ k. true };
  embedded = λ s. none;
}

abbrev store : Core
store = record { dbs = two_db ∷ []; current = 0; embedder = none; jobs = [] }

abbrev visit : Visit
visit = record { env = env; ticks = λ n. pos 20; written = true }

abbrev get_request : Request
get_request = plain_request op_get (pos 0)

-- The key of the request is empty, and no entry has it.
abbrev not_there : Response
not_there = failure kind_not_found (codes "key not found")

dispatch_get :
    dispatch sample wire env (λ n. pos 20) get_request store ≡ (store, answered not_there)
unfolding runs dispatch dispatch_selected select handle handle_get on_db set_elem ensure_loaded
    text_eq failure
dispatch_get = refl

abbrev both_answered :
    Answers sample wire
      (λ n. visit)
      (get_request ∷ get_request ∷ [])
      store
      (not_there ∷ not_there ∷ [])
      store
both_answered = then_more refl dispatch_get (then_more refl dispatch_get no_more)

abbrev get_sent : IsSent sample wire get_request
get_sent = (refl, omega arith)

serve-requests_example :
    serve sample wire 3
      (λ n. visit)
      (request_frames sample wire (get_request ∷ get_request ∷ []))
      store
    ≡ record {
      core = store;
      output = response_frames sample wire (not_there ∷ not_there ∷ []);
      ending = no_frame closed;
    }
serve-requests_example =
    serve-requests sample wire (λ n. visit) (get_request ∷ get_request ∷ []) store store
      (not_there ∷ not_there ∷ []) both_answered (get_sent, (get_sent, tt))

serve-finished_example :
    (serve sample wire 4 (λ n. visit) (1 ∷ 2 ∷ 3 ∷ []) store).ending ≢ unfinished
serve-finished_example =
    serve-finished sample wire 4 (λ n. visit) (1 ∷ 2 ∷ 3 ∷ []) store (omega arith)

abbrev get_exchange : Exchange
get_exchange = record {
  transfer = (over_wire sample wire visit get_request store).1;
  call_done = false;
  stopped = true;
}

abbrev meets : Meets
meets = record {
  now = 5;
  later = 6;
  pooled = get_exchange;
  attempt = λ n. record { gave_up = false; dials = some 1; then_ = get_exchange };
}

remote-local_example :
    local_call sample wire false visit get_request store
    ≡ ((over_wire sample wire visit get_request store).0, returned (call wire meets new_client).1)
unfolding failure
remote-local_example =
    remote-local sample wire visit get_request store store not_there meets new_client 1 refl
      get_sent (refl, omega arith) dispatch_get refl refl refl

dispatch-IsOnDb_example :
    IsOnDb sample wire (pos 0) store (dispatch sample wire env (λ n. pos 20) get_request store).0
dispatch-IsOnDb_example = dispatch-IsOnDb sample wire env (λ n. pos 20) get_request store

read_frames-write_frames_example :
    read_frames 3 (write_frames (age ∷ size ∷ [])) ≡ (age ∷ size ∷ [], closed)
read_frames-write_frames_example =
    read_frames-write_frames (age ∷ size ∷ []) (omega arith, (omega arith, tt))

page_reply-pages_example :
    ((p : ℕ)
      → p < 2
      → page_reply (pos 0) (pos 2) (pos (suc p)) (age ∷ size ∷ age ∷ [])
        ≡ paged_reply (pos 0) (pos 2) (pos (suc p)) 3 (page_part 2 (suc p) (age ∷ size ∷ age ∷ [])))
    × (pages 2 2 (age ∷ size ∷ age ∷ []) ≡ age ∷ size ∷ age ∷ [])
page_reply-pages_example =
    page_reply-pages (pos 0) 1 2 (age ∷ size ∷ age ∷ []) (omega arith) (omega arith)

page_reply-crashed_example :
    page_reply (pos 0) (pos 9223372036854775807) (pos 2) (age ∷ []) ≡ crashed
page_reply-crashed_example =
    page_reply-crashed (pos 0) 9223372036854775806 1 (age ∷ []) (omega arith) (omega arith)
      (omega arith) (omega arith) (omega arith)

call-IsKept_example : IsKept (call wire meets new_client).0
call-IsKept_example =
    call-IsKept wire meets new_client (record { few = omega arith; kept = λ a. refl })

-- A wire whose responses are all empty.
abbrev empty_wire : Wire
empty_wire = record wire { decode_response = λ s. some empty_response }

abbrev attempt_at : ℕ → Attempt
attempt_at zero = record {
  gave_up = false;
  dials = some 1;
  then_ = record { transfer = read_failed eof; call_done = false; stopped = true };
}
attempt_at (suc n) = record {
  gave_up = false;
  dials = some 2;
  then_ = record { transfer = arrived []; call_done = false; stopped = true };
}

-- The first connection is lost, the second is answered.
abbrev dropped_once : Meets
dropped_once = record {
  now = 5;
  later = 6;
  pooled = record { transfer = read_failed eof; call_done = false; stopped = true };
  attempt = attempt_at;
}

call-answered_example : (call empty_wire dropped_once new_client).1 ≡ response empty_response
unfolding exchange received call_error dropped take_conn take_fresh decoded
call-answered_example =
    call-answered empty_wire dropped_once 1 2 empty_response true new_client (omega arith) waits
      (λ j h. inr (1, network eof, first j h, lost j h, refl)) (inl refl) refl refl
  where
    waits : (j : ℕ) → (dropped_once.attempt j).gave_up ≡ false
    waits zero = refl
    waits (suc j) = refl

    first : (j : ℕ) → j < 1 → (dropped_once.attempt j).dials ≡ some 1
    first zero h = refl
    first (suc j) h = absurd (omega arith)

    lost :
        (j : ℕ) → j < 1 → exchange empty_wire (dropped_once.attempt j).then_ ≡ broke (network eof)
    lost zero h = refl
    lost (suc j) h = absurd (omega arith)

zeros : ℕ → Text
zeros zero = []
zeros (suc n) = 0 ∷ zeros n

length-zeros : (n : ℕ) → length (zeros n) ≡ n
unfolding zeros
length-zeros zero = refl
length-zeros (suc n) = omega (arith, length-zeros n)

read_frame-too_large_example :
    read_frame (write_frame (zeros 9000000) ++ age) ≡ failed (too_large (length (zeros 9000000)))
read_frame-too_large_example =
    read_frame-too_large (zeros 9000000) age (omega (arith, length-zeros 9000000))
      (omega (arith, length-zeros 9000000))

api_get-api_set_example :
    (e : Entry) × IsEntryOf sample e age (codes "7") (some (pos 50))
    × ((r : KeyRecord)
        → to_record sample wire (pos 0) age e ≡ some r
        → (api_get
            (local_call sample wire false visit)
            (pos 0)
            age
            (api_set
              (local_call sample wire false visit)
              (pos 0)
              age
              (some (codes "7"))
              (some (pos 50))
              store).0).1
          ≡ value (some r))
unfolding runs encode_content trim_space text_eq ensure_loaded
api_get-api_set_example =
    api_get-api_set sample wire visit visit 0 age (codes "7") (codes "7") (some (pos 50)) store
      (omega arith) (omega arith) refl refl refl
