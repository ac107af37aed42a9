-- ===== src/Daemon/Frames.antt =====
-- `writeFrame` and `readFrame` of core/daemon/protocol.go: a length of four bytes, the most
-- significant first, and a JSON text. A stream is the bytes that a reader will get until its end.
pub mod Laws
use torii_db.Base.{
  ℕ, zero, ◌+◌, ◌*◌, ◌/◌, ◌%◌, ◌^◌, Text, Bool, List, [], ◌∷◌, ◌++◌, length, take, drop, is_empty,
  ltb, ◌==◌, if◌then◌else◌,
}

abbrev pub header_size : ℕ
header_size = 4

abbrev pub max_frame_size : ℕ
max_frame_size = 8 * 2 ^ 20

-- binary.BigEndian.PutUint32 of the length, which wraps
unfoldable pub frame_header : ℕ → Text
frame_header n = n / 16777216 % 256 ∷ n / 65536 % 256 ∷ n / 256 % 256 ∷ n % 256 ∷ []

-- The bytes that `writeFrame` writes of the JSON text.
unfoldable pub write_frame : Text → Text
write_frame raw = frame_header (length raw) ++ raw

-- `closed` is io.EOF: the stream ends where nothing has been read.
pub data FrameError : Type 0 where
  closed cut_off : FrameError
  too_large : ℕ → FrameError

pub data Read {ℓ} (A : Type ℓ) : Type ℓ where
  got : A → Text → Read A
  failed : FrameError → Read A

infixl 5 ◌>>=◌
abbrev pub ◌>>=◌ {ℓ κ} : {A : Type ℓ} {B : Type κ} → Read A → (A → Text → Read B) → Read B
got a rest >>= f = f a rest
failed e >>= f = failed e

-- `io.ReadFull` into a buffer of a size
unfoldable pub read_full : ℕ → Text → Read Text
read_full n s =
    if n == 0
    then got [] s
    else if is_empty s
    then failed closed
    else if ltb (length s) n
    then failed cut_off
    else got (take n s) (drop n s)

-- binary.BigEndian.Uint32
unfoldable pub frame_size : Text → ℕ
frame_size (a ∷ b ∷ c ∷ d ∷ s) = a * 16777216 + b * 65536 + c * 256 + d
frame_size _ = 0

unfoldable pub read_body : Text → Text → Read Text
read_body header s =
    let size = frame_size header in
    if ltb max_frame_size size then failed (too_large size) else read_full size s

unfoldable pub read_frame : Text → Read Text
read_frame s = read_full header_size s >>= read_body
