-- ===== src/Daemon/Server.antt =====
-- `serve` of core/daemon/daemon.go: the loop over the requests of a connection; and `call` of
-- core/daemon/api.go in the process that holds the store.
use torii_db.Base.{
  ℕ, zero, suc, ℤ, Text, codes, Bool, true, false, Option, none, some, List, [], ◌++◌, is_empty,
  if◌then◌else◌,
}
use torii_db.External.{External}
use torii_db.Store.Core.{Core, Env}
use torii_db.Daemon.Call.{
  NetError, eof, other_error, CallError, cancelled, remote, Transfer, read_failed, arrived,
  Returned, response, error,
}
use torii_db.Daemon.Frames.{FrameError, closed, Read, got, failed, read_frame, write_frame}
use torii_db.Daemon.Pages.{Reply, answered, crashed}
use torii_db.Daemon.Handler.{dispatch}
use torii_db.Daemon.Protocol.{
  Request, Response, RemoteError, remote_error, Wire, failure, kind_bad_request,
}
pub mod Laws
pub mod Remote

-- What the loop meets in a round: the store's environment, the clock at each read, and whether the
-- response can be written.
pub record Visit : Type 0 where
  pub env : Env
  pub ticks : ℕ → ℤ
  pub written : Bool

-- Why the loop ends: there is no next frame, the response is not written, a handler panics.
pub data Ending : Type 0 where
  no_frame : FrameError → Ending
  not_written panicked unfinished : Ending

pub record Served : Type 0 where
  pub core : Core
  pub output : Text
  pub ending : Ending

-- What `call` gives in the process of the store; `panicked` ends it.
pub data Local : Type 0 where
  returned : Returned → Local
  panic : Local

unfoldable pub result_of : Response → Returned
result_of r = if is_empty r.error then response r else error (remote (remote_error r.kind r.error))

unfoldable pub returned_reply : Core × Reply → Core × Local
returned_reply (c, answered r) = (c, returned (result_of r))
returned_reply (c, crashed) = (c, panic)

-- What a client meets that reads from a stream.
unfoldable pub transfer_of : Read Text → Transfer
transfer_of (got raw rest) = arrived raw
transfer_of (failed closed) = read_failed eof
transfer_of (failed e) = read_failed other_error

module _ (ext : External) (wire : Wire) where
  unfoldable pub answer_request : Visit → Option Request → Core → Core × Reply
  answer_request v none c = (c, answered (failure kind_bad_request (codes "invalid json payload")))
  answer_request v (some req) c = dispatch ext wire v.env v.ticks req c

  abbrev pub write_before : Text → Served → Served
  write_before frame s = record s { output = frame ++ s.output }

  -- A round behind the frame; `rest` is the loop from the next frame on.
  abbrev pub reply_then : Bool → (Core → Served) → Core × Reply → Served
  reply_then written rest (c, crashed) = record { core = c; output = []; ending = panicked }
  reply_then true rest (c, answered r) =
      write_before (write_frame (wire.encode_response r)) (rest c)
  reply_then false rest (c, answered r) = record { core = c; output = []; ending = not_written }

  unfoldable pub serve : ℕ → (ℕ → Visit) → Text → Core → Served
  serve zero visits input c = record { core = c; output = []; ending = unfinished }
  serve (suc fuel) visits input c = elim (read_frame input) [
    | failed e ↦ record { core = c; output = []; ending = no_frame e }
    | got raw rest ↦
        reply_then (visits 0).written (serve fuel (λ n. visits (suc n)) rest)
          (answer_request (visits 0) (wire.decode_request raw) c)
  ]

  unfoldable pub local_call : Bool → Visit → Request → Core → Core × Local
  local_call call_done v req c =
      if call_done
      then (c, returned (error cancelled))
      else returned_reply (dispatch ext wire v.env v.ticks req c)

  -- One request over a connection: what the loop does with its bytes, and what the client reads.
  unfoldable pub over_wire : Visit → Request → Core → Core × Transfer
  over_wire v req c =
      let s = serve 2 (λ n. v) (write_frame (wire.encode_request req)) c in
      (s.core, transfer_of (read_frame s.output))
