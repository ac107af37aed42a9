-- ===== src/Samples/Codec.antt =====
-- A code for records: each number is put above 10, a text has its length in front, and a choice
-- a number.
use torii_db.Base.{
  ◌<◌, ℕ, zero, suc, ◌+◌, ◌-◌, ℤ, pos, negsuc, Text, Option, none, some, [], ◌∷◌, ◌++◌, length, All,
  All-append, ◌≡◌, ◌≢◌, refl, ap, arith, ◌>>=◌,
}
use mathlib.Core.List.{append_assoc}
use torii_db.Record.{Record}

raise_all : Text → Text
raise_all [] = []
raise_all (c ∷ s) = (c + 11) ∷ raise_all s

put_text : Text → Text
put_text s = (length s + 11) ∷ raise_all s

put_int : ℤ → Text
put_int (pos n) = 11 ∷ (n + 11) ∷ []
put_int (negsuc n) = 12 ∷ (n + 11) ∷ []

put_opt {ℓ} : {A : Type ℓ} → (A → Text) → Option A → Text
put_opt f none = 11 ∷ []
put_opt f (some a) = 12 ∷ f a

-- A reader takes a value off the front of a text.
abbrev Reader {ℓ} : Type ℓ → Type ℓ
Reader A = Text → Option (A × Text)

take_raised : ℕ → Reader Text
take_raised zero s = some ([], s)
take_raised (suc n) [] = none
take_raised (suc n) (c ∷ s) = do (t, rest) ← take_raised n s; some ((c - 11) ∷ t, rest)

take_text : Reader Text
take_text [] = none
take_text (n ∷ s) = take_raised (n - 11) s

sign : ℕ → ℕ → ℤ
sign zero n = pos n
sign (suc k) n = negsuc n

take_int : Reader ℤ
take_int (k ∷ n ∷ s) = some (sign (k - 11) (n - 11), s)
take_int _ = none

take_choice {ℓ} : {A : Type ℓ} → Reader A → ℕ → Reader (Option A)
take_choice f zero s = some (none, s)
take_choice f (suc k) s = do (a, rest) ← f s; some (some a, rest)

take_opt {ℓ} : {A : Type ℓ} → Reader A → Reader (Option A)
take_opt f [] = none
take_opt f (k ∷ s) = take_choice f (k - 11) s

encode_parts : Record → Text
encode_parts r =
    put_int r.timestamp
    ++ (put_text r.command
        ++ (put_text r.key
            ++ (put_text r.value ++ (put_opt put_int r.expire_at ++ put_opt put_text r.vector))))

decode_parts : Text → Option Record
decode_parts s = do
  (timestamp, s1) ← take_int s
  (command, s2) ← take_text s1
  (key, s3) ← take_text s2
  (value, s4) ← take_text s3
  (expire_at, s5) ← take_opt take_int s4
  (vector, s6) ← take_opt take_text s5
  some (record {
    timestamp = timestamp;
    command = command;
    key = key;
    value = value;
    expire_at = expire_at;
    vector = vector;
  })

unfoldable pub encode_record : Record → Text
unfolding encode_parts put_text put_int put_opt raise_all
encode_record r = encode_parts r

unfoldable pub decode_record : Text → Option Record
unfolding decode_parts take_text take_int take_opt take_raised take_choice sign
decode_record s = decode_parts s

take_raised-raise_all :
    (s rest : Text) → take_raised (length s) (raise_all s ++ rest) ≡ some (s, rest)
unfolding take_raised raise_all
take_raised-raise_all [] rest = refl
take_raised-raise_all (c ∷ s) rest =
    rw (take_raised-raise_all s rest) (ap (λ (d : ℕ). some (d ∷ s, rest)) (omega arith))

take_text-put_text : (s rest : Text) → take_text (put_text s ++ rest) ≡ some (s, rest)
unfolding take_text put_text
take_text-put_text s rest =
    let e : length s + 11 - 11 ≡ length s = omega arith in rw e (take_raised-raise_all s rest)

take_int-put_int : (i : ℤ) (rest : Text) → take_int (put_int i ++ rest) ≡ some (i, rest)
unfolding take_int put_int sign
take_int-put_int (pos n) rest =
    let e : n + 11 - 11 ≡ n = omega arith in ap (λ (m : ℕ). some (pos m, rest)) e
take_int-put_int (negsuc n) rest =
    let e : n + 11 - 11 ≡ n = omega arith in ap (λ (m : ℕ). some (negsuc m, rest)) e

take_opt-put_opt {ℓ} :
    {A : Type ℓ} (f : Reader A) (g : A → Text)
    → ((a : A) (rest : Text) → f (g a ++ rest) ≡ some (a, rest))
    → (o : Option A) (rest : Text) → take_opt f (put_opt g o ++ rest) ≡ some (o, rest)
unfolding take_opt put_opt take_choice
take_opt-put_opt f g h none rest = refl
take_opt-put_opt f g h (some a) rest = rw (h a rest)

decode_parts-encode_parts : (r : Record) → decode_parts (encode_parts r ++ 10 ∷ []) ≡ some r
unfolding decode_parts encode_parts
decode_parts-encode_parts r = simp (
  append_assoc,
  take_int-put_int,
  take_text-put_text,
  take_opt-put_opt take_int put_int take_int-put_int,
  take_opt-put_opt take_text put_text take_text-put_text,
)

pub decode-encode : (r : Record) → decode_record (encode_record r ++ 10 ∷ []) ≡ some r
unfolding encode_record decode_record
decode-encode r = decode_parts-encode_parts r

Raised-raise_all : (s : Text) → All (λ c. 10 < c) (raise_all s)
unfolding raise_all
Raised-raise_all [] = tt
Raised-raise_all (c ∷ s) = (omega arith, Raised-raise_all s)

Raised-put_int : (i : ℤ) → All (λ c. 10 < c) (put_int i)
unfolding put_int
Raised-put_int (pos n) = (omega arith, (omega arith, tt))
Raised-put_int (negsuc n) = (omega arith, (omega arith, tt))

Raised-put_text : (s : Text) → All (λ c. 10 < c) (put_text s)
unfolding put_text
Raised-put_text s = (omega arith, Raised-raise_all s)

Raised-put_opt {ℓ} :
    {A : Type ℓ} (g : A → Text) (h : (a : A) → All (λ c. 10 < c) (g a)) (o : Option A)
    → All (λ c. 10 < c) (put_opt g o)
unfolding put_opt
Raised-put_opt g h none = (omega arith, tt)
Raised-put_opt g h (some a) = (omega arith, h a)

Raised-append :
    (xs ys : Text) → All (λ c. 10 < c) xs → All (λ c. 10 < c) ys → All (λ c. 10 < c) (xs ++ ys)
Raised-append xs ys p q = All-append (λ (c : ℕ). 10 < c) xs ys p q

Raised-encode_parts : (r : Record) → All (λ c. 10 < c) (encode_parts r)
unfolding encode_parts
Raised-encode_parts r =
    let v = put_opt put_text r.vector in
    let e = put_opt put_int r.expire_at ++ v in
    let w = put_text r.value ++ e in
    let k = put_text r.key ++ w in
    Raised-append (put_int r.timestamp) (put_text r.command ++ k) (Raised-put_int r.timestamp) (
      Raised-append (put_text r.command) k (Raised-put_text r.command) (
        Raised-append (put_text r.key) w (Raised-put_text r.key) (
          Raised-append (put_text r.value) e (Raised-put_text r.value) (
            Raised-append (put_opt put_int r.expire_at) v
              (Raised-put_opt put_int Raised-put_int r.expire_at)
              (Raised-put_opt put_text Raised-put_text r.vector)))))

pub encode_record-Raised : (r : Record) → All (λ c. 10 < c) (encode_record r)
unfolding encode_record
encode_record-Raised r = Raised-encode_parts r

other_than_newline : (s : Text) → All (λ c. 10 < c) s → All (λ c. c ≢ 10) s
other_than_newline [] h = tt
other_than_newline (c ∷ s) (hc, h) = (omega (arith, hc), other_than_newline s h)

pub one_line : (r : Record) → All (λ c. c ≢ 10) (encode_record r)
one_line r = other_than_newline (encode_record r) (encode_record-Raised r)
