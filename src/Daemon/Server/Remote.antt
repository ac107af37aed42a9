-- ===== src/Daemon/Server/Remote.antt =====
-- A call over the socket, and the same call in the process that holds the store.
use mathlib.Core.List.{append-nil}
use torii_db.Base.{
  ℕ, ◌≤◌, true, false, Option, none, some, [], ◌∷◌, length, is_empty, ◌≡◌, refl, inl, inr,
  Bool-cases, ◌⊎◌,
}
use torii_db.Daemon.Call.{
  CallError, dropped, Exchange, completed, broke, exchange, call, Meets, arrived, received, decoded,
  response, error, remote, reuse, attempts, call_attempts, no_attempt,
}
use torii_db.Daemon.Frames.{got, read_frame, write_frame, max_frame_size, closed}
use torii_db.Daemon.Frames.Laws.{read_frame-write_frame}
use torii_db.Daemon.Pages.{answered}
use torii_db.Daemon.Handler.{dispatch}
use torii_db.Daemon.Pool.{Pool, take_conn}
use torii_db.Daemon.Protocol.{Wire, Request, Response, remote_error}
use torii_db.Daemon.Server.{
  Visit, serve, over_wire, local_call, result_of, returned, transfer_of, returned_reply, no_frame,
}
use torii_db.Daemon.Server.Laws.{
  IsSent, no_more, then_more, serve-requests, request_frames, response_frames,
}
use torii_db.External.{External}
use torii_db.Store.Core.{Core}

module _ (ext : External) (wire : Wire) where
  -- A response that arrives as it was sent.
  abbrev pub IsReturned : Response → Type 0
  IsReturned r =
      (wire.decode_response (wire.encode_response r) ≡ some r)
      × (length (wire.encode_response r) ≤ max_frame_size)

  serve-one :
      (v : Visit) (req : Request) (c after : Core) (r : Response)
      → v.written ≡ true
      → IsSent ext wire req
      → dispatch ext wire v.env v.ticks req c ≡ (after, answered r)
      → serve ext wire 2 (λ n. v) (write_frame (wire.encode_request req)) c ≡ record {
        core = after;
        output = write_frame (wire.encode_response r);
        ending = no_frame closed;
      }
  unfolding request_frames response_frames
  serve-one v req c after r writes sent replies =
      rw
        (
          append-nil (write_frame (wire.encode_request req)),
          append-nil (write_frame (wire.encode_response r)),
        )
        at
        (serve-requests ext wire (λ n. v) (req ∷ []) c after (r ∷ [])
          (then_more writes replies no_more) (sent, tt))

  over_wire-arrived :
      (v : Visit) (req : Request) (c after : Core) (r : Response)
      → v.written ≡ true
      → IsSent ext wire req
      → IsReturned r
      → dispatch ext wire v.env v.ticks req c ≡ (after, answered r)
      → over_wire ext wire v req c ≡ (after, arrived (wire.encode_response r))
  unfolding over_wire transfer_of
  over_wire-arrived v req c after r writes sent (decodes, short) replies =
      let read : read_frame (write_frame (wire.encode_response r))
          ≡ got (wire.encode_response r) [] =
        rw (append-nil (write_frame (wire.encode_response r))) at
          (read_frame-write_frame (wire.encode_response r) [] short) in
      rw (serve-one v req c after r writes sent replies) (rw read refl)

  -- The exchange whose transfer is a response.
  exchange-arrived :
      (x : Exchange) (r : Response)
      → x.transfer ≡ arrived (wire.encode_response r)
      → IsReturned r
      → (exchange wire x ≡ completed r x.stopped) × (result_of r ≡ response r)
        ⊎ ((e : CallError) × (exchange wire x ≡ broke e)
            × (dropped e ≡ false)
            × (result_of r ≡ error e))
  unfolding exchange received decoded result_of dropped
  exchange-arrived x r there (decodes, short) =
      rw (there, decodes)
        (elim (Bool-cases (is_empty r.error)) [
          | inl plain ↦ rw plain (inl (refl, refl))
          | inr has ↦ rw has (inr (remote (remote_error r.kind r.error), refl, refl, refl))
        ])

  first-arrived :
      (m : Meets) (last : CallError) (p : Pool) (conn : ℕ) (r : Response)
      → (m.attempt 0).dials ≡ some conn
      → (m.attempt 0).then_.transfer ≡ arrived (wire.encode_response r)
      → IsReturned r
      → (attempts wire m call_attempts 0 last p).1 ≡ result_of r
  unfolding attempts
  first-arrived m last p conn r dialed fresh back =
      elim (exchange-arrived (m.attempt 0).then_ r fresh back) [
        | inl (e, is) ↦ rw (dialed, e, is) refl
        | inr (err, e, final, is) ↦ rw (dialed, e, is, final) refl
      ]

  -- A call whose first exchange, over a pooled connection or a new one, gives a response.
  reuse-arrived :
      (m : Meets) (t : Pool × Option ℕ) (conn : ℕ) (r : Response)
      → (m.attempt 0).dials ≡ some conn
      → m.pooled.transfer ≡ arrived (wire.encode_response r)
      → (m.attempt 0).then_.transfer ≡ arrived (wire.encode_response r)
      → IsReturned r
      → (reuse wire m t).1 ≡ result_of r
  unfolding reuse
  reuse-arrived m (p, none) conn r dialed pooled fresh back =
      first-arrived m no_attempt p conn r dialed fresh back
  reuse-arrived m (p, some c) conn r dialed pooled fresh back =
      elim (exchange-arrived m.pooled r pooled back) [
        | inl (e, is) ↦ rw (reuse, e, is) refl
        | inr (err, e, final, is) ↦ rw (reuse, e, is, final) refl
      ]

  -- A call over the socket does to the store and returns what the same call in the process of the
  -- store does and returns, an error in the response included, if the context has not ended, the
  -- request and the response are decoded as they were sent and fit into a frame, the handler does
  -- not panic, the response is written, a first connection is had, and that connection or a pooled
  -- one carries the exchange.
  pub remote-local :
      (v : Visit) (req : Request) (c after : Core) (r : Response) (m : Meets) (p : Pool) (conn : ℕ)
      → v.written ≡ true
      → IsSent ext wire req
      → IsReturned r
      → dispatch ext wire v.env v.ticks req c ≡ (after, answered r)
      → (m.attempt 0).dials ≡ some conn
      → m.pooled.transfer ≡ (over_wire ext wire v req c).1
      → (m.attempt 0).then_.transfer ≡ (over_wire ext wire v req c).1
      → local_call ext wire false v req c
        ≡ ((over_wire ext wire v req c).0, returned (call wire m p).1)
  unfolding local_call returned_reply call
  remote-local v req c after r m p conn writes sent back replies dialed pooled fresh =
      let there : over_wire ext wire v req c ≡ (after, arrived (wire.encode_response r)) =
        over_wire-arrived v req c after r writes sent back replies in
      let result : (call wire m p).1 ≡ result_of r =
        reuse-arrived m (take_conn m.now p) conn r dialed (rw there at pooled) (rw there at fresh)
          back in
      rw (there, result, replies) refl
