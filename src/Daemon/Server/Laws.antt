-- ===== src/Daemon/Server/Laws.antt =====
-- The loop over the requests of a connection, and a call over it.
use torii_db.Base.{
  ℕ, zero, suc, ◌+◌, ◌≤◌, ◌<◌, Text, some, List, [], ◌∷◌, ◌++◌, length, length-drop, ◌≡◌, ◌≢◌, refl,
  arith, ap, ◌∙◌, inl, inr, Bool, true, false, ◌⊎◌, All,
}
use torii_db.Daemon.Frames.{
  FrameError, closed, Read, got, failed, read_frame, read_full, read_body, write_frame,
  max_frame_size, header_size, frame_size, ◌>>=◌,
}
use torii_db.Daemon.Frames.Laws.{read_frame-write_frame}
use torii_db.Daemon.Pages.{Reply, answered, crashed}
use torii_db.Daemon.Handler.{dispatch}
use torii_db.Daemon.Protocol.{Wire, Request, Response}
use torii_db.Daemon.Server.{
  Visit, unfinished, Served, serve, reply_then, answer_request, write_before, no_frame,
}
use torii_db.External.{External}
use torii_db.Store.Core.{Core}

-- What is left behind a read, which took `n` elements at least.
Left : {A : Type 0} → ℕ → ℕ → Read A → Type 0
Left n m (got a rest) = length rest + n ≤ m
Left n m (failed e) = Unit

read_full-Left : (n : ℕ) (s : Text) → Left n (length s) (read_full n s)
unfolding Left read_full
read_full-Left n s = ground (arith, length-drop n s)

read_body-Left : (header s : Text) (n m : ℕ) → length s + n ≤ m → Left n m (read_body header s)
unfolding Left read_body read_full
read_body-Left header s n m h = ground (arith, length-drop (frame_size header) s)

then-Left : (n m : ℕ) (r : Read Text) → Left n m r → Left n m (r >>= read_body)
unfolding Left
then-Left n m (got header rest) h = read_body-Left header rest n m h
then-Left n m (failed e) h = h

read_frame-Left : (s : Text) → Left header_size (length s) (read_frame s)
unfolding read_frame
read_frame-Left s =
    then-Left header_size (length s) (read_full header_size s) (read_full-Left header_size s)

Read-cases :
    (r : Read Text) → ((raw rest : Text) × (r ≡ got raw rest)) ⊎ ((e : FrameError) × (r ≡ failed e))
Read-cases (got raw rest) = inl (raw, rest, refl)
Read-cases (failed e) = inr (e, refl)

module _ (ext : External) (wire : Wire) where
  reply_then-finished :
      (written : Bool) (rest : Core → Served) (t : Core × Reply)
      → ((c : Core) → (rest c).ending ≢ unfinished)
      → (reply_then ext wire written rest t).ending ≢ unfinished
  reply_then-finished written rest (c, crashed) h = λ e. absurd cc
  reply_then-finished true rest (c, answered r) h = h c
  reply_then-finished false rest (c, answered r) h = λ e. absurd cc

  -- The loop over a connection's requests ends on every stream, with as many rounds as the stream
  -- has bytes and one more, whatever the bytes are.
  pub serve-finished :
      (fuel : ℕ) (visits : ℕ → Visit) (input : Text) (c : Core)
      → length input < fuel
      → (serve ext wire fuel visits input c).ending ≢ unfinished
  unfolding serve Left
  serve-finished zero visits input c h = absurd (omega arith)
  serve-finished (suc fuel) visits input c h = elim (Read-cases (read_frame input)) [
    | inr (e, there) ↦ rw (there, serve) (λ x. absurd cc)
    | inl (raw, rest, there) ↦
        let less : length rest + header_size ≤ length input = rw there at (read_frame-Left input) in
        rw (there, serve)
          (reply_then-finished (visits 0).written (serve ext wire fuel (λ n. visits (suc n)) rest)
            (answer_request ext wire (visits 0) (wire.decode_request raw) c)
            (λ c'. serve-finished fuel (λ n. visits (suc n)) rest c' (omega arith)))
  ]

  -- Requests that are handled one after the other, with their responses.
  pub data Answers : (ℕ → Visit) → List Request → Core → List Response → Core → Type 0 where
    no_more : {visits : ℕ → Visit} {c : Core} → Answers visits [] c [] c
    then_more :
        {visits : ℕ → Visit} {req : Request} {reqs : List Request} {c after last : Core}
        {r : Response} {rs : List Response}
        → (visits 0).written ≡ true
        → dispatch ext wire (visits 0).env (visits 0).ticks req c ≡ (after, answered r)
        → Answers (λ n. visits (suc n)) reqs after rs last
        → Answers visits (req ∷ reqs) c (r ∷ rs) last

  -- A request that arrives as it was sent.
  abbrev pub IsSent : Request → Type 0
  IsSent req =
      (wire.decode_request (wire.encode_request req) ≡ some req)
      × (length (wire.encode_request req) ≤ max_frame_size)

  unfoldable pub request_frames : List Request → Text
  request_frames [] = []
  request_frames (req ∷ reqs) = write_frame (wire.encode_request req) ++ request_frames reqs

  unfoldable pub response_frames : List Response → Text
  response_frames [] = []
  response_frames (r ∷ rs) = write_frame (wire.encode_response r) ++ response_frames rs

  -- One round of the loop.
  serve-round :
      (fuel : ℕ) (visits : ℕ → Visit) (req : Request) (rest : Text) (c after : Core) (r : Response)
      → IsSent req
      → (visits 0).written ≡ true
      → dispatch ext wire (visits 0).env (visits 0).ticks req c ≡ (after, answered r)
      → serve ext wire (suc fuel) visits (write_frame (wire.encode_request req) ++ rest) c
        ≡ write_before ext wire
            (write_frame (wire.encode_response r))
            (serve ext wire fuel (λ n. visits (suc n)) rest after)
  unfolding serve answer_request
  serve-round fuel visits req rest c after r (decodes, short) writes replies =
      rw (read_frame-write_frame (wire.encode_request req) rest short, serve)
        (rw (decodes, answer_request) (rw (replies, writes) refl))

  -- A connection that brings framed requests is served as their handlers in order: the store ends
  -- as they leave it, the responses are written in the order of the requests, and the loop ends at
  -- the end of the stream, if every request is decoded as it was sent and fits into a frame, no
  -- handler panics and every response is written.
  pub serve-requests :
      (visits : ℕ → Visit) (reqs : List Request) (c last : Core) (rs : List Response)
      → Answers visits reqs c rs last
      → All IsSent reqs
      → serve ext wire (suc (length reqs)) visits (request_frames reqs) c
        ≡ record { core = last; output = response_frames rs; ending = no_frame closed }
  unfolding request_frames response_frames
  serve-requests visits _ c _ _ no_more h = unfold serve read_frame read_full in refl
  serve-requests visits (req ∷ reqs) c last _ (then_more {after} {r} {rs} writes replies more)
        (h, hs) =
      serve-round (suc (length reqs)) visits req (request_frames reqs) c after r h writes replies
      ∙ ap (write_before ext wire (write_frame (wire.encode_response r)))
          (serve-requests (λ n. visits (suc n)) reqs after last rs more hs)
