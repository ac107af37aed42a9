-- ===== src/Embedding/Laws.antt =====
-- What a client gives for a text.
use mathlib.Core.Option.{some-injective}
use mathlib.Core.Path.{subst}
use torii_db.Base.{
  false, ℕ, zero, suc, ◌<◌, ℤ, pos, negsuc, Text, trim_space, Option, none, some, List, [], ◌∷◌,
  length, is_empty, ◌==◌, ◌≡◌, inl, inr, Bool-cases, arith,
}
use torii_db.Embedding.{
  Client, Settings, key_of, dim_of, embedding_client, Service, Posted, not_sent, not_read, replied,
  embedding, check_vector, parsed, read_reply, send, embed,
}

dim_of-positive : (dim : ℤ) → 0 < dim_of dim
dim_of-positive (pos zero) = omega arith
dim_of-positive (pos (suc n)) = omega arith
dim_of-positive (negsuc n) = omega arith

embedding_client-dim :
    (s : Settings) (api_key : Text) (c : Client)
    → embedding_client s api_key ≡ some c
    → (0 < c.dim) × (is_empty c.api_key ≡ false)
unfolding embedding_client
embedding_client-dim s api_key c h = elim (Bool-cases (is_empty (key_of s api_key))) [
  | inl empty ↦ absurd (ground (arith, h, empty))
  | inr key ↦
      let made = some-injective _ _ (rw key at h) in
      subst (λ (d : Client). (0 < d.dim) × (is_empty d.api_key ≡ false)) made
        (dim_of-positive s.env_dim, key)
]

check_vector-dim :
    (dim : ℕ) (vs : List (List ℕ)) (v : List ℕ) → check_vector dim vs ≡ embedding v → length v ≡ dim
unfolding check_vector
check_vector-dim dim [] v h = absurd cc
check_vector-dim dim (w ∷ vs) v h = ground arith

parsed-dim :
    (dim : ℕ) (o : Option (List (List ℕ))) (v : List ℕ)
    → parsed dim o ≡ embedding v
    → length v ≡ dim
unfolding parsed
parsed-dim dim none v h = absurd cc
parsed-dim dim (some vs) v h = check_vector-dim dim vs v h

read_reply-dim :
    (s : Service) (dim : ℕ) (p : Posted) (v : List ℕ)
    → read_reply s dim p ≡ embedding v
    → length v ≡ dim
unfolding read_reply
read_reply-dim s dim not_sent v h = absurd cc
read_reply-dim s dim not_read v h = absurd cc
read_reply-dim s dim (replied status body) v h = elim (Bool-cases (status == 200)) [
  | inl good ↦ parsed-dim dim (s.unmarshal body) v (rw good at h)
  | inr bad ↦ absurd (ground arith)
]

send-dim :
    (s : Service) (c : Client) (raw : Option Text) (v : List ℕ)
    → send s c raw ≡ embedding v
    → length v ≡ c.dim
unfolding send
send-dim s c none v h = absurd cc
send-dim s c (some raw) v h = read_reply-dim s c.dim (s.post c.api_key raw) v h

-- A vector that a new client returns has exactly the client's dimension, which is positive, and its
-- text was not blank, whatever the service answers.
pub embed-dim :
    (settings : Settings) (api_key : Text) (s : Service) (c : Client) (text : Text) (v : List ℕ)
    → embedding_client settings api_key ≡ some c
    → embed s c text ≡ embedding v
    → (length v ≡ c.dim) × (0 < length v) × (is_empty (trim_space text) ≡ false)
unfolding embed
embed-dim settings api_key s c text v made h = elim (Bool-cases (is_empty (trim_space text))) [
  | inl empty ↦ absurd (ground arith)
  | inr full ↦
      let size : length v ≡ c.dim = send-dim s c _ v (rw full at h) in
      let made_dim = (embedding_client-dim settings api_key c made).0 in (size, ground arith, full)
]
