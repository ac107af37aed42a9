-- ===== src/Embedding.antt =====
-- core/openai/client.go: the client of the embedding service.
pub mod Laws
use torii_db.Base.{
  ℕ, suc, ℤ, pos, Text, codes, trim_space, Option, none, some, List, [], ◌∷◌, length, is_empty,
  ◌==◌, if◌then◌else◌,
}

abbrev pub default_model : Text
default_model = codes "text-embedding-3-small"

abbrev pub default_dim : ℕ
default_dim = 256

pub record Client : Type 0 where
  pub api_key : Text
  pub dim : ℕ
  pub model : Text

pub record EmbedRequest : Type 0 where
  pub input : Text
  pub model : Text
  pub dimensions : ℕ
  pub encoding_format : Text

-- What the environment and the keychain hold: OPENAI_API_KEY, TORIIDB_EMBED_DIM with its default.
pub record Settings : Type 0 where
  pub env_key : Text
  pub keychain_key : Text
  pub env_dim : ℤ

-- The first of two texts, unless it is empty.
abbrev or_else : Text → Text → Text
or_else first second = if is_empty first then second else first

unfoldable pub key_of : Settings → Text → Text
key_of s api_key =
    or_else (or_else (trim_space api_key) (trim_space s.env_key)) (trim_space s.keychain_key)

-- A dimension that is not positive is the default.
abbrev pub dim_of : ℤ → ℕ
dim_of (pos (suc n)) = suc n
dim_of _ = default_dim

-- `none` is the error that there is no key.
unfoldable pub embedding_client : Settings → Text → Option Client
embedding_client s api_key =
    let key = key_of s api_key in
    if is_empty key
    then none
    else some (record { api_key = key; dim = dim_of s.env_dim; model = default_model })

-- The HTTP exchange: an error before the answer, one in its body, or a status and a body.
pub data Posted : Type 0 where
  not_sent not_read : Posted
  replied : ℕ → Text → Posted

-- json.Marshal of the request, the exchange with a key and a body, and the vectors of `data` that
-- json.Unmarshal reads. A float32 is its 32 bits.
pub record Service : Type 0 where
  pub marshal : EmbedRequest → Option Text
  pub post : Text → Text → Posted
  pub unmarshal : Text → Option (List (List ℕ))

pub data EmbedError : Type 0 where
  text_empty not_marshalled no_answer body_cut not_parsed response_empty : EmbedError
  bad_status : ℕ → Text → EmbedError
  dim_mismatch : ℕ → ℕ → EmbedError

pub data Embedded : Type 0 where
  embedding : List ℕ → Embedded
  embed_failed : EmbedError → Embedded

unfoldable pub check_vector : ℕ → List (List ℕ) → Embedded
check_vector dim [] = embed_failed response_empty
check_vector dim (v ∷ vs) =
    if is_empty v
    then embed_failed response_empty
    else if length v == dim
    then embedding v
    else embed_failed (dim_mismatch dim (length v))

unfoldable pub parsed : ℕ → Option (List (List ℕ)) → Embedded
parsed dim none = embed_failed not_parsed
parsed dim (some vs) = check_vector dim vs

unfoldable pub read_reply : Service → ℕ → Posted → Embedded
read_reply s dim not_sent = embed_failed no_answer
read_reply s dim not_read = embed_failed body_cut
read_reply s dim (replied status body) =
    if status == 200 then parsed dim (s.unmarshal body) else embed_failed (bad_status status body)

unfoldable pub send : Service → Client → Option Text → Embedded
send s c none = embed_failed not_marshalled
send s c (some raw) = read_reply s c.dim (s.post c.api_key raw)

unfoldable pub embed : Service → Client → Text → Embedded
embed s c text =
    if is_empty (trim_space text)
    then embed_failed text_empty
    else send s c (
        s.marshal (record {
          input = text;
          model = c.model;
          dimensions = c.dim;
          encoding_format = codes "float";
        }))
