-- ===== src/Store/Durable/Fragment.antt =====
-- A record of which a failed write has left a part: it is read as a whole, or not at all.
use torii_db.Base.{
  ℕ, zero, suc, ◌≤◌, ◌<◌, Text, Dict, true, none, some, [], ◌∷◌, ◌++◌, length, length-append, take,
  ltb, ◌==◌, ◌≡◌, ◌≢◌, ◌⊎◌, inl, inr, Bool-cases, refl, ap, ◌∙◌, arith,
}
use mathlib.Core.List.{append-nil}
use torii_db.External.{External}
use torii_db.Record.{Record}
use torii_db.Store.Compact.{encode_line}
use torii_db.Store.Db.{text_of}
use torii_db.Store.Entry.{Entry}
use torii_db.Store.Replay.{lines_of, apply_lines, apply_record, replay_text}
use torii_db.Store.Replay.Lines.{NoNewline, ends_line, lines_of-append, lines_of-tail}
use torii_db.Store.Durable.{CodecLaws}
use torii_db.Store.Durable.Append.{apply_lines-append, apply_lines-one, replay_text-encode_line}
use torii_db.Store.Durable.Torn.{apply_lines-malformed}

-- What `encoding/json` promises of a part of a record's text: a JSON object that is cut short is not
-- JSON, and the newline behind it does not matter.
pub record CutLaws (ext : External) : Type 0 where
  pub cut :
      (r : Record) (n : ℕ)
      → n < length (ext.encode_record r)
      → ext.decode_record (take n (ext.encode_record r)) ≡ none
  pub bare :
      (r : Record)
      → ext.decode_record (ext.encode_record r) ≡ ext.decode_record (ext.encode_record r ++ 10 ∷ [])

pub take-append-short : (n : ℕ) (xs ys : Text) → n ≤ length xs → take n (xs ++ ys) ≡ take n xs
take-append-short zero xs ys h = refl
take-append-short (suc n) [] ys h = absurd (omega arith)
take-append-short (suc n) (x ∷ xs) ys h =
    ap (λ (r : Text). x ∷ r) (take-append-short n xs ys (omega arith))

take-all : (n : ℕ) (xs : Text) → length xs ≤ n → take n xs ≡ xs
take-all zero [] h = refl
take-all zero (x ∷ xs) h = absurd (omega arith)
take-all (suc n) [] h = refl
take-all (suc n) (x ∷ xs) h = ap (λ (r : Text). x ∷ r) (take-all n xs (omega arith))

NoNewline-take : (n : ℕ) (s : Text) → NoNewline s → NoNewline (take n s)
NoNewline-take zero s h = tt
NoNewline-take (suc n) [] h = tt
NoNewline-take (suc n) (c ∷ s) (hc, hs) = (hc, NoNewline-take n s hs)

module _ (ext : External) (laws : CodecLaws ext) (cuts : CutLaws ext) where
  -- A tail without a newline that does not decode is not there.
  replay_text-tail :
      (text tail : Text) (m : Dict Entry)
      → ends_line text ≡ true
      → NoNewline tail
      → ext.decode_record tail ≡ none
      → replay_text ext (text ++ tail) m ≡ replay_text ext text m
  unfolding replay_text
  replay_text-tail text [] m whole one h =
      ap (λ t. apply_lines ext (lines_of t) m) (append-nil text)
  replay_text-tail text (c ∷ tail) m whole one h =
      rw
        (
          lines_of-append text (c ∷ tail) whole,
          lines_of-tail c tail one,
          apply_lines-append ext (lines_of text),
        )
        (apply_lines-malformed ext (c ∷ tail) _ h)

  replay_text-bare :
      (text body : Text) (r : Record) (m : Dict Entry)
      → ends_line text ≡ true
      → NoNewline body
      → ext.decode_record body ≡ some r
      → body ≢ []
      → replay_text ext (text ++ body) m ≡ apply_record ext r (replay_text ext text m)
  unfolding replay_text
  replay_text-bare text [] r m whole one h there = absurd (there refl)
  replay_text-bare text (c ∷ body) r m whole one h there =
      rw
        (
          lines_of-append text (c ∷ body) whole,
          lines_of-tail c body one,
          apply_lines-append ext (lines_of text),
        )
        (apply_lines-one ext (c ∷ body) r _ h)

  module _ (text : Text) (r : Record) (m : Dict Entry)
      (command_ok : ext.utf8_valid r.command ≡ true)
      (vector_ok : ext.utf8_valid (text_of r.vector) ≡ true) (key_ok : ext.utf8_valid r.key ≡ true)
      (value_ok : ext.utf8_valid r.value ≡ true) (whole : ends_line text ≡ true) where
    abbrev body : Text
    body = ext.encode_record r

    decode-body : ext.decode_record body ≡ some r
    decode-body = cuts.bare r ∙ laws.decode-encode r command_ok vector_ok key_ok value_ok

    -- The old entries, or those with the record applied
    abbrev pub BeforeOrAfter : Text → Type 0
    BeforeOrAfter part =
        (replay_text ext (text ++ part) m ≡ replay_text ext text m)
        ⊎ (replay_text ext (text ++ part) m ≡ apply_record ext r (replay_text ext text m))

    body-BeforeOrAfter : (b : Text) → body ≡ b → BeforeOrAfter body
    body-BeforeOrAfter [] e = inl (rw e (ap (λ t. replay_text ext t m) (append-nil text)))
    body-BeforeOrAfter (c ∷ b) e = inr (
        replay_text-bare text body r m whole (laws.one_line r) decode-body
          (λ nil. let bad : c ∷ b ≡ [] = rw e at nil in cc))

    -- Any part of a record's line behind whole lines
    pub take-BeforeOrAfter : (n : ℕ) → BeforeOrAfter (take n (encode_line ext r))
    unfolding encode_line
    take-BeforeOrAfter n = elim (Bool-cases (ltb n (length body))) [
      | inl short ↦
          let less : n < length body = ground (arith, short) in
          rw (take-append-short n body (10 ∷ []) (omega (arith, less))) (
            inl (
              replay_text-tail text (take n body) m whole (NoNewline-take n body (laws.one_line r))
                (cuts.cut r n less)))
      | inr long ↦ elim (Bool-cases (n == length body)) [
        | inl same ↦
            let all = take-append-short n body (10 ∷ []) (ground (arith, same)) in
            let all2 = take-all n body (ground (arith, long)) in
            rw (all, all2) (body-BeforeOrAfter body refl)
        | inr more ↦
            let size = length-append body (10 ∷ []) in
            let all = take-all n (body ++ (10 ∷ [])) (ground (arith, long, more, size)) in
            rw all (
              inr (
                unfold encode_line in
                replay_text-encode_line ext text r m laws command_ok vector_ok key_ok value_ok
                  whole))
      ]
    ]
