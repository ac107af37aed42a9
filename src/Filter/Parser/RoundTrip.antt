-- ===== src/Filter/Parser/RoundTrip.antt =====
-- The words of a filter are read back: core/store/filter/parser.go, and `AtoFilter` behind its
-- split into words.
use torii_db.Base.{
  Bool-cases, ℕ, ◌+◌, ◌*◌, Text, codes, text_eq, to_upper, true, false, List, [], ◌∷◌, ◌++◌, length,
  is_empty, ltb, ◌≡◌, refl, ap, sym, arith, Bool-cases, inl, inr,
}
use mathlib.Core.List.{append-nil}
use torii_db.Filter.Condition.{
  Filter, Filters, cond, and_, or_, not_, none_left, also, eq, ne, gt, gte, ge, lt, lte, le, like_,
}
use torii_db.Filter.Operation.{Operator}
use torii_db.Filter.Parser.{parsed, parse_words, finish, parse_or}
use torii_db.Filter.Parser.Print.{
  operator_word, level, wrapped, wrap_below, filter_words, operand_words, rest_words, HasTwo,
  IsPrintable, AllPrintable,
}
use torii_db.Filter.Parser.Reading.{reading, may_follow, Reads, Reads-cond}
use torii_db.Filter.Parser.Levels.{lift_not, lift_and, lift_or, Reads-not, Reads-wrapped}
use torii_db.Filter.Parser.Operands.{
  AndReads, OrReads, OrStarts, AndReads-nil, OrReads-nil, AndReads-also, OrReads-also, and_gathers,
  or_gathers,
}

lift_wrapped : (f : Filter) (ws : List Text) → Reads 0 f ws → Reads 2 f (wrapped ws)
unfolding text_eq to_upper
lift_wrapped f ws r = lift_not f (codes "(") (ws ++ (codes ")" ∷ [])) refl (Reads-wrapped f ws r)

-- `Or`, `And` and `Not` read a filter from its words, in parentheses where these are needed.
abbrev ReadsAll : Filter → Type 0
ReadsAll f =
    Reads 0 f (filter_words f)
    × Reads 1 f (wrap_below 1 (level f) (filter_words f))
    × Reads 2 f (wrap_below 2 (level f) (filter_words f))

read_cond :
    (field value : Text) (op : Operator)
    → IsPrintable (cond field op value)
    → Reads 2 (cond field op value) (filter_words (cond field op value))
unfolding IsPrintable filter_words
read_cond field value op (named, filled, plain) =
    lift_not (cond field op value) field (operator_word op ∷ value ∷ []) named.no_keyword
      (Reads-cond field value op named filled)

OrStarts-rest_words : (fs : Filters) → OrStarts (rest_words (codes "OR") 1 fs)
unfolding rest_words to_upper text_eq
OrStarts-rest_words none_left rest follows = ground (arith, follows)
OrStarts-rest_words (also f fs) rest follows = refl

module _ (f : Filter) (ws : List Text) where
  of_not : Reads 2 f ws → Reads 0 f ws × Reads 1 f ws × Reads 2 f ws
  of_not r = (lift_or f ws (lift_and f ws r), lift_and f ws r, r)

  of_and : Reads 1 f ws → Reads 0 f ws × Reads 1 f ws × Reads 2 f (wrapped ws)
  of_and r = (lift_or f ws r, r, lift_wrapped f ws (lift_or f ws r))

  of_or : Reads 0 f ws → Reads 0 f ws × Reads 1 f (wrapped ws) × Reads 2 f (wrapped ws)
  of_or r = (r, lift_and f (wrapped ws) (lift_wrapped f ws r), lift_wrapped f ws r)

mutual
  unfolding IsPrintable filter_words

  read_all : (f : Filter) → IsPrintable f → ReadsAll f
  read_all (cond field op value) h =
      of_not (cond field op value) (field ∷ operator_word op ∷ value ∷ [])
        (read_cond field value op h)
  read_all (not_ f) h =
      of_not (not_ f) (codes "NOT" ∷ wrap_below 2 (level f) (filter_words f))
        (Reads-not f (wrap_below 2 (level f) (filter_words f)) (read_all f h).2)
  read_all (and_ fs) (two, h) =
      of_and (and_ fs) (operand_words (codes "AND") 2 fs) (read_and fs two h)
  read_all (or_ fs) (two, h) = of_or (or_ fs) (operand_words (codes "OR") 1 fs) (read_or fs two h)
  read_all (eq field value) h = absurd h
  read_all (ne field value) h = absurd h
  read_all (gt field value) h = absurd h
  read_all (gte field value) h = absurd h
  read_all (ge field value) h = absurd h
  read_all (lt field value) h = absurd h
  read_all (lte field value) h = absurd h
  read_all (le field value) h = absurd h
  read_all (like_ field value) h = absurd h

  read_and :
      (fs : Filters)
      → HasTwo fs
      → AllPrintable fs
      → Reads 1 (and_ fs) (operand_words (codes "AND") 2 fs)
  read_and none_left two h = absurd two
  read_and (also f none_left) two h = absurd two
  read_and (also f (also g fs)) two (hf, hs) =
      and_gathers f g fs (wrap_below 2 (level f) (filter_words f))
        (rest_words (codes "AND") 2 (also g fs)) (read_all f hf).2 (read_ands (also g fs) hs)

  read_or :
      (fs : Filters)
      → HasTwo fs
      → AllPrintable fs
      → Reads 0 (or_ fs) (operand_words (codes "OR") 1 fs)
  read_or none_left two h = absurd two
  read_or (also f none_left) two h = absurd two
  read_or (also f (also g fs)) two (hf, hs) =
      or_gathers f g fs (wrap_below 1 (level f) (filter_words f))
        (rest_words (codes "OR") 1 (also g fs)) (OrStarts-rest_words (also g fs)) (read_all f hf).1
        (read_ors (also g fs) hs)

  read_ands : (fs : Filters) → AllPrintable fs → AndReads fs (rest_words (codes "AND") 2 fs)
  read_ands none_left h = AndReads-nil
  read_ands (also f fs) (hf, hs) =
      AndReads-also f fs (wrap_below 2 (level f) (filter_words f)) (rest_words (codes "AND") 2 fs)
        (read_all f hf).2 (read_ands fs hs)

  read_ors : (fs : Filters) → AllPrintable fs → OrReads fs (rest_words (codes "OR") 1 fs)
  read_ors none_left h = OrReads-nil
  read_ors (also f fs) (hf, hs) =
      OrReads-also f fs (wrap_below 1 (level f) (filter_words f)) (rest_words (codes "OR") 1 fs)
        (OrStarts-rest_words fs) (read_all f hf).1 (read_ors fs hs)

wrap_below-filled :
    (n l : ℕ) (ws vs : List Text) → is_empty ws ≡ false → is_empty (wrap_below n l ws ++ vs) ≡ false
wrap_below-filled n l [] vs h = absurd cc
wrap_below-filled n l (w ∷ ws) vs h = elim (Bool-cases (ltb l n)) [
  | inl e ↦ rw e refl
  | inr e ↦ rw e refl
]

filter_words-filled : (f : Filter) → IsPrintable f → is_empty (filter_words f) ≡ false
unfolding IsPrintable filter_words
filter_words-filled (cond field op value) h = refl
filter_words-filled (not_ f) h = refl
filter_words-filled (and_ none_left) (two, h) = absurd two
filter_words-filled (and_ (also f fs)) (two, (hf, hs)) =
    wrap_below-filled 2 (level f) (filter_words f) _ (filter_words-filled f hf)
filter_words-filled (or_ none_left) (two, h) = absurd two
filter_words-filled (or_ (also f fs)) (two, (hf, hs)) =
    wrap_below-filled 1 (level f) (filter_words f) _ (filter_words-filled f hf)
filter_words-filled (eq field value) h = absurd h
filter_words-filled (ne field value) h = absurd h
filter_words-filled (gt field value) h = absurd h
filter_words-filled (gte field value) h = absurd h
filter_words-filled (ge field value) h = absurd h
filter_words-filled (lt field value) h = absurd h
filter_words-filled (lte field value) h = absurd h
filter_words-filled (le field value) h = absurd h
filter_words-filled (like_ field value) h = absurd h

pub parse_words-filter_words :
    (f : Filter)
    → IsPrintable f
    → parse_words (filter_words f) ≡ parsed f (reading (filter_words f) (length (filter_words f)))
unfolding parse_words finish
parse_words-filter_words f h =
    let ws = filter_words f in
    let nil = append-nil ws in
    let ends : may_follow 0 [] ≡ true = unfold to_upper text_eq in refl in
    let size = ap (λ (l : List Text). length l) nil in
    let read : parse_or (5 * length ws + 5) (reading ws 0) ≡ parsed f (reading ws (0 + length ws)) =
      (read_all f h).0 (5 * length ws + 5) ws [] 0 (sym nil) (omega (arith, size)) ends in
    let whole : ltb (0 + length ws) (length ws) ≡ false = ground arith in
    let same : 0 + length ws ≡ length ws = omega arith in
    rw (filter_words-filled f h, read, whole, same) refl
