-- ===== src/Filter/Parser/Split.antt =====
-- `AtoFilter` of core/store/filter/filter.go splits a text into words: at white space, and around
-- parentheses.
use torii_db.Base.{
  ℕ, Text, codes, fields, words_by, split_words, is_space, All, All-append, true, false, ◌&&◌, ◌==◌,
  List, [], ◌∷◌, ◌++◌, length, is_empty, ltb, reverse, ◌≡◌, refl, ap, sym, arith, Bool-cases, inl,
  inr,
}
use mathlib.Core.List.{reverse-cons, reverse-reverse}
use mathlib.Core.Path.{subst}
use torii_db.Filter.Condition.{
  Filter, Filters, cond, and_, or_, not_, none_left, also, eq, ne, gt, gte, ge, lt, lte, le, like_,
}
use torii_db.Filter.Operation.{
  Operator, equal_to, greater_than, greater_than_or_equal_to, less_than, less_than_or_equal_to,
  not_equal_to, like,
}
use torii_db.Filter.Parser.{parsed, peel_open, peel_close, split_word, split_all, ato_filter}
use torii_db.Filter.Parser.Print.{
  level, wrap_below, operator_word, filter_words, operand_words, rest_words, IsPlain, IsPrintable,
  AllPrintable,
}
use torii_db.Filter.Parser.Reading.{reading}
use torii_db.Filter.Parser.RoundTrip.{parse_words-filter_words}

-- A word that stays one word.
record IsToken (w : Text) : Type 0 where
  there : is_empty w ≡ false
  spaceless : All (λ c. is_space c ≡ false) w
  whole : split_word w ≡ w ∷ []

-- Words with a space behind each
unfoldable pub joined : List Text → Text
joined [] = []
joined (w ∷ ws) = w ++ (32 ∷ joined ws)

split_words-spaceless :
    (w s : Text)
    → All (λ c. is_space c ≡ false) w
    → split_words is_space (w ++ (32 ∷ s)) ≡ (w, words_by is_space s)
unfolding split_words words_by
split_words-spaceless [] s h = unfold is_space in refl
split_words-spaceless (c ∷ w) s (hc, hw) = rw (hc, split_words-spaceless w s hw) refl

fields-joined : (ws : List Text) → All IsToken ws → fields (joined ws) ≡ ws
unfolding fields joined
fields-joined [] h = unfold words_by split_words in refl
fields-joined ([] ∷ ws) (token, h) = let bad = token.there in absurd cc
fields-joined ((c ∷ w) ∷ ws) (token, h) =
    unfold words_by in
    rw (split_words-spaceless (c ∷ w) (joined ws) token.spaceless)
      (ap (λ (r : List Text). (c ∷ w) ∷ r) (fields-joined ws h))

split_all-tokens : (ws : List Text) → All IsToken ws → split_all ws ≡ ws
unfolding split_all
split_all-tokens [] h = refl
split_all-tokens (w ∷ ws) (token, h) = rw (token.whole, split_all-tokens ws h) refl

All-reverse : (P : ℕ → Type 0) (s : Text) → All P s → All P (reverse s)
All-reverse P [] h = tt
All-reverse P (c ∷ s) (hc, hs) =
    subst (All P) (sym (reverse-cons c s))
      (All-append P (reverse s) (c ∷ []) (All-reverse P s hs) (hc, tt))

peel_open-plain : (s : Text) → IsPlain s → peel_open s ≡ ([], s)
unfolding peel_open
peel_open-plain [] h = refl
peel_open-plain (c ∷ s) (hc, h) =
    let other : (c == b'(') ≡ false = ground (arith, hc) in rw other refl

peel_close-plain : (s : Text) → IsPlain s → peel_close s ≡ ([], s)
unfolding peel_close
peel_close-plain [] h = refl
peel_close-plain (c ∷ s) (hc, h) =
    let other : (c == b')') ≡ false = ground (arith, hc) in rw other refl

reverse-filled : (s : Text) → is_empty s ≡ false → is_empty (reverse s) ≡ false
reverse-filled s h = filled (reverse s) (reverse-reverse s)
  where
    filled : (t : Text) → reverse t ≡ s → is_empty t ≡ false
    filled [] e = let bad : is_empty s ≡ true = rw⁻¹ e refl in absurd cc
    filled (c ∷ t) e = refl

split_word-plain : (w : Text) → is_empty w ≡ false → IsPlain w → split_word w ≡ w ∷ []
unfolding split_word
split_word-plain w h plain =
    rw
      (
        peel_open-plain w plain,
        peel_close-plain (reverse w) (All-reverse _ w plain),
        reverse-filled w h,
        reverse-reverse w,
      )
      refl

spaceless-plain : (w : Text) → IsPlain w → All (λ c. is_space c ≡ false) w
spaceless-plain [] h = tt
spaceless-plain (c ∷ w) (hc, h) = (ground (arith, hc), spaceless-plain w h)

IsToken-plain : (w : Text) → is_empty w ≡ false → IsPlain w → IsToken w
IsToken-plain w h plain = record {
  there = h;
  spaceless = spaceless-plain w plain;
  whole = split_word-plain w h plain;
}

-- The words of a filter's own: parentheses, keywords and operators
IsToken-open : IsToken (codes "(")
unfolding is_space split_word peel_open peel_close
IsToken-open = record { there = refl; spaceless = (refl, tt); whole = refl }

IsToken-close : IsToken (codes ")")
unfolding is_space split_word peel_open peel_close
IsToken-close = record { there = refl; spaceless = (refl, tt); whole = refl }

keyword-IsToken :
    (w : Text) → is_empty w ≡ false → All (λ c. (ltb c 91 && ltb 64 c) ≡ true) w → IsToken w
keyword-IsToken w h letters = IsToken-plain w h (plain w letters)
  where
    plain : (s : Text) → All (λ c. (ltb c 91 && ltb 64 c) ≡ true) s → IsPlain s
    plain [] h = tt
    plain (c ∷ s) (hc, hs) = (unfold is_space in ground (arith, hc), plain s hs)

operator-IsToken : (op : Operator) → IsToken (operator_word op)
operator-IsToken equal_to = keyword-IsToken (codes "EQ") refl (refl, (refl, tt))
operator-IsToken greater_than = keyword-IsToken (codes "GT") refl (refl, (refl, tt))
operator-IsToken greater_than_or_equal_to =
    keyword-IsToken (codes "GTE") refl (refl, (refl, (refl, tt)))
operator-IsToken less_than = keyword-IsToken (codes "LT") refl (refl, (refl, tt))
operator-IsToken less_than_or_equal_to =
    keyword-IsToken (codes "LTE") refl (refl, (refl, (refl, tt)))
operator-IsToken not_equal_to = keyword-IsToken (codes "NE") refl (refl, (refl, tt))
operator-IsToken like = keyword-IsToken (codes "LIKE") refl (refl, (refl, (refl, (refl, tt))))

wrap_below-tokens : (n l : ℕ) (ws : List Text) → All IsToken ws → All IsToken (wrap_below n l ws)
wrap_below-tokens n l ws h = elim (Bool-cases (ltb l n)) [
  | inl e ↦ rw e (IsToken-open, All-append IsToken ws (codes ")" ∷ []) h (IsToken-close, tt))
  | inr e ↦ rw e h
]

mutual
  unfolding filter_words IsPrintable

  filter_words-tokens : (f : Filter) → IsPrintable f → All IsToken (filter_words f)
  filter_words-tokens (cond field op value) (named, filled, plain) = (
    IsToken-plain field named.there named.plain,
    (operator-IsToken op, (IsToken-plain value filled plain, tt)),
  )
  filter_words-tokens (not_ f) h = (
    keyword-IsToken (codes "NOT") refl (refl, (refl, (refl, tt))),
    wrap_below-tokens 2 (level f) (filter_words f) (filter_words-tokens f h),
  )
  filter_words-tokens (and_ fs) (two, h) =
      operand_tokens (codes "AND") 2 fs
        (keyword-IsToken (codes "AND") refl (refl, (refl, (refl, tt)))) h
  filter_words-tokens (or_ fs) (two, h) =
      operand_tokens (codes "OR") 1 fs (keyword-IsToken (codes "OR") refl (refl, (refl, tt))) h
  filter_words-tokens (eq field value) h = absurd h
  filter_words-tokens (ne field value) h = absurd h
  filter_words-tokens (gt field value) h = absurd h
  filter_words-tokens (gte field value) h = absurd h
  filter_words-tokens (ge field value) h = absurd h
  filter_words-tokens (lt field value) h = absurd h
  filter_words-tokens (lte field value) h = absurd h
  filter_words-tokens (le field value) h = absurd h
  filter_words-tokens (like_ field value) h = absurd h

  operand_tokens :
      (word : Text) (n : ℕ) (fs : Filters)
      → IsToken word
      → AllPrintable fs
      → All IsToken (operand_words word n fs)
  operand_tokens word n none_left token h = tt
  operand_tokens word n (also f fs) token (hf, hs) =
      All-append IsToken (wrap_below n (level f) (filter_words f)) (rest_words word n fs)
        (wrap_below-tokens n (level f) (filter_words f) (filter_words-tokens f hf))
        (rest_tokens word n fs token hs)

  rest_tokens :
      (word : Text) (n : ℕ) (fs : Filters)
      → IsToken word
      → AllPrintable fs
      → All IsToken (rest_words word n fs)
  rest_tokens word n none_left token h = tt
  rest_tokens word n (also f fs) token (hf, hs) = (
    token,
    All-append IsToken (wrap_below n (level f) (filter_words f)) (rest_words word n fs)
        (wrap_below-tokens n (level f) (filter_words f) (filter_words-tokens f hf))
        (rest_tokens word n fs token hs),
  )

-- A filter written as a text, with NOT before AND before OR and parentheses only where these need
-- them, is read back as that filter, and the whole text is read, if it is made of conditions,
-- negations, and ANDs and ORs of two or more operands, and its fields and values are words without
-- white space and parentheses, the fields other than NOT.
pub ato_filter-joined :
    (f : Filter)
    → IsPrintable f
    → ato_filter (joined (filter_words f))
      ≡ parsed f (reading (filter_words f) (length (filter_words f)))
unfolding ato_filter
ato_filter-joined f h =
    let tokens = filter_words-tokens f h in
    rw (fields-joined (filter_words f) tokens, split_all-tokens (filter_words f) tokens)
      (parse_words-filter_words f h)
