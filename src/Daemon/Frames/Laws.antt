-- ===== src/Daemon/Frames/Laws.antt =====
-- What a reader gets of written frames.
use mathlib.Core.List.{append_assoc}
use torii_db.Base.{
  ℕ, zero, suc, ◌^◌, ◌≤◌, ◌<◌, Text, List, [], ◌∷◌, ◌++◌, length, take, drop, ltb, All,
  if◌then◌else◌, ◌≡◌, refl, ap, arith, length-append, ◌∙◌,
}
use torii_db.Daemon.Frames.{
  header_size, max_frame_size, frame_header, write_frame, FrameError, closed, too_large, got,
  failed, read_full, frame_size, read_body, read_frame,
}

take-length-append : (xs ys : Text) → take (length xs) (xs ++ ys) ≡ xs
take-length-append [] ys = refl
take-length-append (x ∷ xs) ys = ap (λ r. x ∷ r) (take-length-append xs ys)

drop-length-append : (xs ys : Text) → drop (length xs) (xs ++ ys) ≡ ys
drop-length-append [] ys = refl
drop-length-append (x ∷ xs) ys = drop-length-append xs ys

read_full-append : (xs ys : Text) → read_full (length xs) (xs ++ ys) ≡ got xs ys
unfolding read_full
read_full-append [] ys = refl
read_full-append (x ∷ xs) ys =
    ground (arith, length-append xs ys, take-length-append xs ys, drop-length-append xs ys)

read_full-four :
    (a b c d : ℕ) (s : Text)
    → read_full header_size (a ∷ b ∷ c ∷ d ∷ s) ≡ got (a ∷ b ∷ c ∷ d ∷ []) s
unfolding read_full
read_full-four a b c d s = ground arith

frame_size-frame_header : (n : ℕ) → n < 2 ^ 32 → frame_size (frame_header n) ≡ n
unfolding frame_size frame_header
frame_size-frame_header n h = omega arith

read_body-size :
    (header s : Text) (n : ℕ)
    → frame_size header ≡ n
    → read_body header s ≡ (if ltb max_frame_size n then failed (too_large n) else read_full n s)
unfolding read_body
read_body-size header s n h = rw h refl

-- A frame's size is read back, and checked before its body.
read_frame-header :
    (n : ℕ) (s : Text)
    → n < 2 ^ 32
    → read_frame (frame_header n ++ s)
      ≡ (if ltb max_frame_size n then failed (too_large n) else read_full n s)
unfolding read_frame
read_frame-header n s h =
    rw (four n s) (read_body-size (frame_header n) s n (frame_size-frame_header n h))
  where
    four : (n : ℕ) (s : Text) → read_full header_size (frame_header n ++ s) ≡ got (frame_header n) s
    four n s = unfold frame_header in read_full-four _ _ _ _ s

write_frame-append :
    (raw rest : Text) → write_frame raw ++ rest ≡ frame_header (length raw) ++ (raw ++ rest)
unfolding write_frame
write_frame-append raw rest = append_assoc (frame_header (length raw)) raw rest

pub read_frame-write_frame :
    (raw rest : Text)
    → length raw ≤ max_frame_size
    → read_frame (write_frame raw ++ rest) ≡ got raw rest
read_frame-write_frame raw rest h =
    ap read_frame (write_frame-append raw rest)
    ∙ (read_frame-header (length raw) (raw ++ rest) (omega arith)
        ∙ ground (arith, read_full-append raw rest))

-- A text above the largest size of a frame, which the writer takes as long as its length fits in 32
-- bits, is refused by the reader with its length, whatever follows it.
pub read_frame-too_large :
    (raw rest : Text)
    → max_frame_size < length raw
    → length raw < 2 ^ 32
    → read_frame (write_frame raw ++ rest) ≡ failed (too_large (length raw))
read_frame-too_large raw rest h k =
    ap read_frame (write_frame-append raw rest)
    ∙ (read_frame-header (length raw) (raw ++ rest) k ∙ ground arith)

-- The frames of a stream, `count` at most, and how it ends.
unfoldable pub read_frames : ℕ → Text → List Text × FrameError
read_frames zero s = ([], closed)
read_frames (suc count) s = elim (read_frame s) [
  | failed e ↦ ([], e)
  | got raw rest ↦ let (more, e) = read_frames count rest in (raw ∷ more, e)
]

unfoldable pub write_frames : List Text → Text
write_frames [] = []
write_frames (raw ∷ raws) = write_frame raw ++ write_frames raws

read_frames-got :
    (count : ℕ) (s raw rest : Text)
    → read_frame s ≡ got raw rest
    → read_frames (suc count) s ≡ (raw ∷ (read_frames count rest).0, (read_frames count rest).1)
unfolding read_frames
read_frames-got count s raw rest h = rw (h, read_frames) refl

-- Frames written one after the other are read back in that order up to the clean end of the stream,
-- if none is above the largest size.
pub read_frames-write_frames :
    (raws : List Text)
    → All (λ raw. length raw ≤ max_frame_size) raws
    → read_frames (suc (length raws)) (write_frames raws) ≡ (raws, closed)
unfolding read_frames write_frames
read_frames-write_frames [] h = unfold read_frame read_full in refl
read_frames-write_frames (raw ∷ raws) (h, hs) =
    read_frames-got (suc (length raws)) _ raw (write_frames raws)
      (read_frame-write_frame raw (write_frames raws) h)
    ∙ ap (λ (r : List Text × FrameError). (raw ∷ r.0, r.1)) (read_frames-write_frames raws hs)
