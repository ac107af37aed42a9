-- ===== src/Store/Vector.antt =====
-- core/store/vector.go: vectors of float32, given by their bits, as base64 text.
use torii_db.Base.{
  ℕ, ◌+◌, ◌*◌, ◌/◌, ◌%◌, ◌^◌, ◌<◌, Text, codes, has_prefix, Bool, false, Option, none, some, List,
  [], ◌∷◌, is_empty, ◌>>=◌, ◌≡◌, refl, ap, arith, All,
}
use torii_db.External.{External}

abbrev pub internal_prefix : Text
internal_prefix = codes "__torii:"

unfoldable pub is_internal : Text → Bool
unfolding has_prefix
is_internal key = has_prefix key internal_prefix

-- binary.LittleEndian.PutUint32 of each element
vector_bytes : List ℕ → List ℕ
vector_bytes [] = []
vector_bytes (v ∷ vec) =
    v % 256 ∷ v / 256 % 256 ∷ v / 65536 % 256 ∷ v / 16777216 % 256 ∷ vector_bytes vec

-- binary.LittleEndian.Uint32 of each four bytes; `none` if the length is no multiple of four
vector_words : List ℕ → Option (List ℕ)
vector_words [] = some []
vector_words (a ∷ b ∷ c ∷ d ∷ raw) = do
  rest ← vector_words raw
  some ((a + b * 256 + c * 65536 + d * 16777216) ∷ rest)
vector_words _ = none

module _ (ext : External) where
  unfoldable pub encode_vector : List ℕ → Text
  unfolding vector_bytes
  encode_vector [] = []
  encode_vector (v ∷ vec) = ext.base64_encode (vector_bytes (v ∷ vec))

  unfoldable pub decode_vector : Text → Option (List ℕ)
  unfolding vector_words
  decode_vector [] = some []
  decode_vector (c ∷ s) = ext.base64_decode (c ∷ s) >>= vector_words

abbrev pub IsFloat32 : ℕ → Type 0
IsFloat32 v = v < 2 ^ 32

vector_words-vector_bytes :
    (vec : List ℕ) → All IsFloat32 vec → vector_words (vector_bytes vec) ≡ some vec
unfolding vector_words vector_bytes
vector_words-vector_bytes [] h = refl
vector_words-vector_bytes (v ∷ vec) (h, hs) =
    rw (vector_words-vector_bytes vec hs) (ap (λ w. some (w ∷ vec)) (omega arith))

-- What base64 promises of texts that it has made, and that it makes no empty text of bytes.
pub record Base64Laws (ext : External) : Type 0 where
  pub decode-encode : (raw : List ℕ) → ext.base64_decode (ext.base64_encode raw) ≡ some raw
  pub encode-nonempty : (b : ℕ) (raw : List ℕ) → is_empty (ext.base64_encode (b ∷ raw)) ≡ false

decode_of_nonempty :
    (ext : External) (s : Text)
    → is_empty s ≡ false
    → decode_vector ext s ≡ (ext.base64_decode s >>= vector_words)
unfolding decode_vector
decode_of_nonempty ext [] h = cc
decode_of_nonempty ext (c ∷ s) h = refl

-- Decoding the encoded text of a vector of 32-bit words gives the vector back, if base64 decodes
-- what it has encoded and encodes no byte sequence but the empty one to an empty text.
pub decode_vector-encode_vector :
    (ext : External) (vec : List ℕ)
    → Base64Laws ext
    → All IsFloat32 vec
    → decode_vector ext (encode_vector ext vec) ≡ some vec
unfolding encode_vector
decode_vector-encode_vector ext [] laws h = unfold decode_vector in refl
decode_vector-encode_vector ext (v ∷ vec) laws h =
    rw (decode_of_nonempty ext _ (laws.encode-nonempty _ _))
      (rw laws.decode-encode (vector_words-vector_bytes (v ∷ vec) h))
