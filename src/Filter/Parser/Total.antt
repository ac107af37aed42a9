-- ===== src/Filter/Parser/Total.antt =====
-- The parser always ends: five levels of calls for each word that is left are enough.
use torii_db.Base.{
  ℕ, zero, suc, ◌+◌, ◌-◌, ◌*◌, ◌≤◌, ◌<◌, Text, codes, text_eq, text_eq_iff, to_upper, true, false,
  List, [], ◌∷◌, get_or, length, is_empty, ◌≡◌, ◌≢◌, refl, arith, Bool-cases, inl, inr,
}
use torii_db.Filter.Condition.{Filter}
use torii_db.Filter.Parser.{
  Parser, Parsed, parsed, parse_failed, out_of_fuel, current, next, ◌>>=◌, at_keyword, condition,
  close, parse_primary, parse_not, and_rest, parse_and, or_rest, parse_or, finish, parse_words,
  ato_filter,
}

-- The words left.
abbrev left : Parser → ℕ
left p = length p.words - p.position

-- A result other than running out of fuel, and with no more words left than `n`.
abbrev Within {ℓ} : {A : Type ℓ} → ℕ → Parsed A → Type 0
Within n (parsed a p) = left p ≤ n
Within n (parse_failed e) = Unit {0}
Within n out_of_fuel = ⊥

Within-bind {ℓ κ} :
    {A : Type ℓ} {B : Type κ} (n : ℕ) (m : Parsed A) (f : A → Parser → Parsed B)
    → Within n m
    → ((a : A) (p : Parser) → left p ≤ n → Within n (f a p))
    → Within n (m >>= f)
Within-bind n (parsed a p) f h k = k a p h
Within-bind n (parse_failed e) f h k = tt
Within-bind n out_of_fuel f h k = h

Within-le {ℓ} : {A : Type ℓ} (n k : ℕ) (m : Parsed A) → n ≤ k → Within n m → Within k m
Within-le n k (parsed a p) le h = omega arith
Within-le n k (parse_failed e) le h = tt
Within-le n k out_of_fuel le h = h

nonempty-lt : (ws : List Text) (i : ℕ) → is_empty (get_or ws i []) ≡ false → i < length ws
nonempty-lt [] i h = cc
nonempty-lt (w ∷ ws) zero h = omega arith
nonempty-lt (w ∷ ws) (suc i) h = omega (arith, nonempty-lt ws i h)

next-left : (p : Parser) → left (next p).1 ≤ left p
unfolding next
next-left p = ground arith

-- A word that is there is one word fewer.
next-left_lt : (p : Parser) → is_empty (current p) ≡ false → suc (left (next p).1) ≤ left p
unfolding next current
next-left_lt p h = let lt = nonempty-lt p.words p.position h in rw h (omega arith)

to_upper-nil : (s : Text) → is_empty s ≡ true → to_upper s ≡ []
unfolding to_upper
to_upper-nil [] h = refl
to_upper-nil (c ∷ s) h = cc

keyword_nonempty :
    (p : Parser) (c : ℕ) (word : Text)
    → at_keyword (c ∷ word) p ≡ true
    → is_empty (current p) ≡ false
keyword_nonempty p c word h = elim (Bool-cases (is_empty (current p))) [
  | inl e ↦ absurd (bad ((text_eq_iff _ _).0 h) (to_upper-nil _ e))
  | inr e ↦ e
]
  where
    bad : to_upper (current p) ≡ c ∷ word → to_upper (current p) ≡ [] → ⊥
    bad a b = cc

open_nonempty :
    (p : Parser) (c : ℕ) (word : Text)
    → text_eq (current p) (c ∷ word) ≡ true
    → is_empty (current p) ≡ false
open_nonempty p c word h = rw ((text_eq_iff _ _).0 h)

condition-Within : (p : Parser) → Within (left p) (condition p)
unfolding condition
condition-Within p =
    ground (arith, next-left p, next-left (next p).1, next-left (next (next p).1).1)

close-Within : (f : Filter) (p : Parser) (n : ℕ) → left p ≤ n → Within n (close f p)
unfolding close
close-Within f p n h = ground (arith, next-left p)

mutual
  unfolding parse_primary

  primary-Within :
      (fuel : ℕ) (p : Parser) → 5 * left p + 1 ≤ fuel → Within (left p) (parse_primary fuel p)
  primary-Within zero p h = absurd (omega arith)
  primary-Within (suc fuel) p h = elim (Bool-cases (text_eq (current p) (codes "("))) [
    | inl e ↦
        let less = next-left_lt p (open_nonempty p _ _ e) in
        rw e (
          Within-bind (left p) _ close
            (Within-le _ _ _ (omega arith) (or-Within fuel (next p).1 (omega arith)))
            (λ f q k. close-Within f q (left p) k))
    | inr e ↦ rw e (condition-Within p)
  ]

  not-Within : (fuel : ℕ) (p : Parser) → 5 * left p + 2 ≤ fuel → Within (left p) (parse_not fuel p)
  not-Within zero p h = absurd (omega arith)
  not-Within (suc fuel) p h = elim (Bool-cases (at_keyword (codes "NOT") p)) [
    | inl e ↦
        let less = next-left_lt p (keyword_nonempty p _ _ e) in
        rw e (
          Within-bind (left p) _ _
            (Within-le _ _ _ (omega arith) (not-Within fuel (next p).1 (omega arith))) (λ f q k. k))
    | inr e ↦ rw e (primary-Within fuel p (omega arith))
  ]

  and_rest-Within :
      (fuel : ℕ) (p : Parser) → 5 * left p + 1 ≤ fuel → Within (left p) (and_rest fuel p)
  and_rest-Within zero p h = absurd (omega arith)
  and_rest-Within (suc fuel) p h = elim (Bool-cases (at_keyword (codes "AND") p)) [
    | inl e ↦
        let less = next-left_lt p (keyword_nonempty p _ _ e) in
        rw e (
          Within-le (left (next p).1) (left p) _ (omega arith) (
            Within-bind (left (next p).1) _ _ (not-Within fuel (next p).1 (omega arith)) (λ f q k.
              Within-bind (left (next p).1) _ _
                (Within-le _ _ _ k (and_rest-Within fuel q (omega arith))) (λ fs r j. j))))
    | inr e ↦ rw e (omega arith)
  ]

  and-Within : (fuel : ℕ) (p : Parser) → 5 * left p + 3 ≤ fuel → Within (left p) (parse_and fuel p)
  and-Within zero p h = absurd (omega arith)
  and-Within (suc fuel) p h = Within-bind (left p) _ _ (not-Within fuel p (omega arith)) (λ f q k.
      Within-bind (left p) _ _ (Within-le _ _ _ k (and_rest-Within fuel q (omega arith)))
        (λ fs r j. j))

  or_rest-Within :
      (fuel : ℕ) (p : Parser) → 5 * left p + 1 ≤ fuel → Within (left p) (or_rest fuel p)
  or_rest-Within zero p h = absurd (omega arith)
  or_rest-Within (suc fuel) p h = elim (Bool-cases (at_keyword (codes "OR") p)) [
    | inl e ↦
        let less = next-left_lt p (keyword_nonempty p _ _ e) in
        rw e (
          Within-le (left (next p).1) (left p) _ (omega arith) (
            Within-bind (left (next p).1) _ _ (and-Within fuel (next p).1 (omega arith)) (λ f q k.
              Within-bind (left (next p).1) _ _
                (Within-le _ _ _ k (or_rest-Within fuel q (omega arith))) (λ fs r j. j))))
    | inr e ↦ rw e (omega arith)
  ]

  or-Within : (fuel : ℕ) (p : Parser) → 5 * left p + 4 ≤ fuel → Within (left p) (parse_or fuel p)
  or-Within zero p h = absurd (omega arith)
  or-Within (suc fuel) p h = Within-bind (left p) _ _ (and-Within fuel p (omega arith)) (λ f q k.
      Within-bind (left p) _ _ (Within-le _ _ _ k (or_rest-Within fuel q (omega arith)))
        (λ fs r j. j))

finish-ne-out_of_fuel : (n : ℕ) (r : Parsed Filter) → Within n r → (r >>= finish) ≢ out_of_fuel
unfolding finish
finish-ne-out_of_fuel n (parsed f p) h = ground arith
finish-ne-out_of_fuel n (parse_failed e) h = cc
finish-ne-out_of_fuel n out_of_fuel h = absurd h

parse_words-ne-out_of_fuel : (words : List Text) → parse_words words ≢ out_of_fuel
unfolding parse_words
parse_words-ne-out_of_fuel [] = cc
parse_words-ne-out_of_fuel (w ∷ ws) =
    finish-ne-out_of_fuel _ _ (or-Within _ (record { words = w ∷ ws; position = 0 }) (omega arith))

-- The filter parser ends on every text: with five units of fuel for each word and five more it
-- never runs out, and gives a filter or a parse error.
pub ato_filter-ne-out_of_fuel : (str : Text) → ato_filter str ≢ out_of_fuel
unfolding ato_filter
ato_filter-ne-out_of_fuel str = parse_words-ne-out_of_fuel _
