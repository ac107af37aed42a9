-- ===== src/Samples/Marked.antt =====
-- A code for records with a mark at its end, so that a part of a record is told apart from a whole
-- one.
use torii_db.Base.{
  ℕ, zero, suc, ◌<◌, Text, Bool, true, false, ◌&&◌, Option, none, some, [], ◌∷◌, ◌++◌, All,
  All-append, length-append, take, is_empty, ◌==◌, if◌then◌else◌, ◌>>=◌, ◌≡◌, ◌≢◌, refl, ap, arith,
  ◌∙◌, sym,
}
use mathlib.Core.List.{append_assoc}
use torii_db.External.{External}
use torii_db.Record.{Record}
use torii_db.Samples.{sample}
use torii_db.Samples.Codec.{
  encode_record, decode_record, decode-encode, one_line, encode_record-Raised,
}
use torii_db.Store.Durable.{CodecLaws}
use torii_db.Store.Durable.Fragment.{CutLaws, take-append-short}
use torii_db.Store.Vector.{Base64Laws}

-- A newline may follow the mark.
is_rest : Text → Bool
is_rest [] = true
is_rest (c ∷ s) = (c == 10) && is_empty s

-- What stands before the mark
unmarked : Text → Option Text
unmarked [] = none
unmarked (c ∷ s) = if c == 9 && is_rest s then some [] else (unmarked s >>= λ b. some (c ∷ b))

unfoldable pub encode_marked : Record → Text
encode_marked r = encode_record r ++ (9 ∷ [])

unfoldable pub decode_marked : Text → Option Record
unfolding unmarked is_rest
decode_marked s = unmarked s >>= λ b. decode_record (b ++ (10 ∷ []))

unmarked-none : (s : Text) → All (λ c. 10 < c) s → unmarked s ≡ none
unfolding unmarked is_rest
unmarked-none [] h = refl
unmarked-none (c ∷ s) (hc, h) =
    let other : (c == 9) ≡ false = ground arith in rw (other, unmarked-none s h) refl

unmarked-append :
    (s rest : Text)
    → All (λ c. 10 < c) s
    → is_rest rest ≡ true
    → unmarked (s ++ (9 ∷ rest)) ≡ some s
unfolding unmarked is_rest
unmarked-append [] rest h e = rw e refl
unmarked-append (c ∷ s) rest (hc, h) e =
    let other : (c == 9) ≡ false = ground arith in rw (other, unmarked-append s rest h e) refl

Raised-take : (n : ℕ) (s : Text) → All (λ c. 10 < c) s → All (λ c. 10 < c) (take n s)
Raised-take zero s h = tt
Raised-take (suc n) [] h = tt
Raised-take (suc n) (c ∷ s) (hc, h) = (hc, Raised-take n s h)

decode-marked :
    (r : Record) (rest : Text)
    → is_rest rest ≡ true
    → decode_marked (encode_record r ++ (9 ∷ rest)) ≡ some r
unfolding decode_marked
decode-marked r rest e =
    rw (unmarked-append (encode_record r) rest (encode_record-Raised r) e) (decode-encode r)

abbrev pub marked : External
marked = record sample { encode_record = encode_marked; decode_record = decode_marked }

pub marked-CodecLaws : CodecLaws marked
unfolding encode_marked is_rest
marked-CodecLaws = record {
  ascii = λ s h. refl;
  one_line =
      λ r. All-append (λ (c : ℕ). c ≢ 10) (encode_record r) (9 ∷ []) (one_line r) (omega arith, tt);
  decode-encode = λ r c x k v.
      ap decode_marked (append_assoc (encode_record r) (9 ∷ []) (10 ∷ []))
      ∙ decode-marked r (10 ∷ []) refl;
}

pub marked-CutLaws : CutLaws marked
unfolding encode_marked decode_marked is_rest
marked-CutLaws = record {
  cut = λ r n h.
      let size = length-append (encode_record r) (9 ∷ []) in
      let short = take-append-short n (encode_record r) (9 ∷ []) (omega (arith, size, h)) in
      rw
        (
          short,
          unmarked-none (take n (encode_record r))
              (Raised-take n (encode_record r) (encode_record-Raised r)),
        )
        refl;
  bare = λ r.
      decode-marked r [] refl
      ∙ sym (
          ap decode_marked (append_assoc (encode_record r) (9 ∷ []) (10 ∷ []))
          ∙ decode-marked r (10 ∷ []) refl);
}

pub marked-Base64Laws : Base64Laws marked
marked-Base64Laws = record { decode-encode = λ raw. refl; encode-nonempty = λ b raw. refl }
