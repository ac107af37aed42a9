-- ===== src/Daemon/Call.antt =====
-- `call` and `exchange` of core/daemon/client.go: one request over a pooled connection, and retries
-- over new ones.
pub mod Laws
use torii_db.Base.{
  ℕ, zero, suc, ◌+◌, Text, Bool, true, false, not, ◌&&◌, Option, none, some, is_empty, ltb,
  if◌then◌else◌,
}
use torii_db.Daemon.Protocol.{Response, RemoteError, remote_error, Wire}
use torii_db.Daemon.Pool.{Pool, take_conn, put_conn, close_conn, add_dialed}

abbrev pub call_attempts : ℕ
call_attempts = 3

-- Errors of the network: io.EOF, EPIPE, ECONNRESET, and others.
pub data NetError : Type 0 where
  eof broken_pipe reset other_error : NetError

pub data CallError : Type 0 where
  network : NetError → CallError
  cancelled not_decoded dial_failed no_attempt : CallError
  remote : RemoteError → CallError

-- How far the bytes of one exchange get.
pub data Transfer : Type 0 where
  write_failed read_failed : NetError → Transfer
  arrived : Text → Transfer

-- `call_done` is an error of the context, `stopped` what the stop function of its hook returns.
pub record Exchange : Type 0 where
  pub transfer : Transfer
  pub call_done : Bool
  pub stopped : Bool

pub data Outcome : Type 0 where
  completed : Response → Bool → Outcome
  broke : CallError → Outcome

-- `dropped`: the connection was lost, and another may do.
unfoldable pub dropped : CallError → Bool
dropped (network eof) = true
dropped (network broken_pipe) = true
dropped (network reset) = true
dropped _ = false

-- `callError`
unfoldable pub call_error : Bool → NetError → CallError
call_error call_done e = if call_done then cancelled else network e

unfoldable pub decoded : Bool → Option Response → Outcome
decoded stopped none = broke not_decoded
decoded stopped (some r) =
    if is_empty r.error then completed r stopped else broke (remote (remote_error r.kind r.error))

unfoldable pub received : Wire → Bool → Bool → Transfer → Outcome
received wire call_done stopped (write_failed e) = broke (call_error call_done e)
received wire call_done stopped (read_failed e) = broke (call_error call_done e)
received wire call_done stopped (arrived raw) = decoded stopped (wire.decode_response raw)

unfoldable pub exchange : Wire → Exchange → Outcome
exchange wire x = received wire x.call_done x.stopped x.transfer

-- What an attempt meets: the context may end in the wait before it, and no connection be had.
pub record Attempt : Type 0 where
  pub gave_up : Bool
  pub dials : Option ℕ
  pub then_ : Exchange

-- What a call meets: the clock at its start and its end, the exchange over a pooled connection, and
-- the attempts.
pub record Meets : Type 0 where
  pub now : ℕ
  pub later : ℕ
  pub pooled : Exchange
  pub attempt : ℕ → Attempt

pub data Returned : Type 0 where
  response : Response → Returned
  error : CallError → Returned

module _ (wire : Wire) (m : Meets) where
  -- `left` attempts from the number `i` on; `last` is the error so far.
  unfoldable pub attempts : ℕ → ℕ → CallError → Pool → Pool × Returned
  attempts zero i last p = (p, error last)
  attempts (suc left) i last p =
      let a = m.attempt i in
      let no_connection = attempts left (suc i) dial_failed p in
      if ltb 0 i && a.gave_up then (p, error cancelled) else elim a.dials [
        | none ↦ no_connection
        | some conn ↦ elim (exchange wire a.then_) [
          | completed r reusable ↦ (put_conn m.later conn reusable (add_dialed conn p), response r)
          | broke e ↦
              let closed = close_conn conn (add_dialed conn p) in
              let again = attempts left (suc i) e closed in
              if dropped e then again else (closed, error e)
        ]
      ]

  -- A pooled connection is tried first, outside the count of the attempts.
  unfoldable pub reuse : Pool × Option ℕ → Pool × Returned
  reuse (p, none) = attempts call_attempts 0 no_attempt p
  reuse (p, some conn) = elim (exchange wire m.pooled) [
    | completed r reusable ↦ (put_conn m.later conn reusable p, response r)
    | broke e ↦
        if dropped e
        then attempts call_attempts 0 no_attempt (close_conn conn p)
        else (close_conn conn p, error e)
  ]

  unfoldable pub call : Pool → Pool × Returned
  unfolding reuse
  call p = reuse (take_conn m.now p)
