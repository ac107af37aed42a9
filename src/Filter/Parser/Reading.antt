-- ===== src/Filter/Parser/Reading.antt =====
-- The parser of core/store/filter/parser.go at a place of its words, and how a filter that one of
-- its methods reads is read by the methods above it.
use torii_db.Base.{
  ℕ, zero, suc, ◌+◌, ◌*◌, ◌≤◌, Text, codes, text_eq, to_upper, Bool, true, false, not, ◌&&◌, List,
  [], ◌∷◌, ◌++◌, get_or, drop, length, is_empty, ◌≡◌, ◌∙◌, refl, ap, arith,
}
use torii_db.Filter.Operation.{
  Operator, equal_to, greater_than, greater_than_or_equal_to, less_than, less_than_or_equal_to,
  not_equal_to, like,
}
use torii_db.Filter.Condition.{Filter, cond}
use torii_db.Filter.Parser.{
  Parser, Parsed, parsed, current, next, condition, parse_primary, parse_not, parse_and, parse_or,
}
use torii_db.Filter.Parser.Print.{operator_word, ato_operation-operator_word, IsField}

abbrev pub reading : List Text → ℕ → Parser
reading all i = record { words = all; position = i }

-- The first of the words left, or the empty word.
abbrev pub head_word : List Text → Text
head_word [] = []
head_word (w ∷ ws) = w

get_or-drop : (i : ℕ) (all ws : List Text) → drop i all ≡ ws → get_or all i [] ≡ head_word ws
get_or-drop i [] [] e = refl
get_or-drop zero (x ∷ all) ws e = ap head_word e
get_or-drop (suc i) (x ∷ all) ws e = get_or-drop i all ws e
get_or-drop zero [] (w ∷ ws) e = absurd cc
get_or-drop (suc i) [] (w ∷ ws) e = absurd cc

abbrev later_words : List Text → List Text
later_words [] = []
later_words (w ∷ ws) = ws

pub drop-next :
    (i : ℕ) (all : List Text) (w : Text) (ws : List Text)
    → drop i all ≡ w ∷ ws
    → drop (i + 1) all ≡ ws
drop-next zero [] w ws e = absurd cc
drop-next (suc i) [] w ws e = absurd cc
drop-next zero (x ∷ all) w ws e = ap later_words e
drop-next (suc i) (x ∷ all) w ws e =
    let same : suc i + 1 ≡ suc (i + 1) = omega arith in
    ap (λ k. drop k (x ∷ all)) same ∙ drop-next i all w ws e

pub drop-past :
    (all ws rest : List Text) (i : ℕ) → drop i all ≡ ws ++ rest → drop (i + length ws) all ≡ rest
drop-past all [] rest i e = let same : i + 0 ≡ i = omega arith in ap (λ k. drop k all) same ∙ e
drop-past all (w ∷ ws) rest i e =
    let same : i + suc (length ws) ≡ i + 1 + length ws = omega arith in
    ap (λ k. drop k all) same ∙ drop-past all ws rest (i + 1) (drop-next i all w (ws ++ rest) e)

pub current-reading :
    (all ws : List Text) (i : ℕ) → drop i all ≡ ws → current (reading all i) ≡ head_word ws
unfolding current
current-reading all ws i e = get_or-drop i all ws e

pub next-reading :
    (all ws : List Text) (w : Text) (i : ℕ)
    → drop i all ≡ w ∷ ws
    → is_empty w ≡ false
    → next (reading all i) ≡ (w, reading all (i + 1))
unfolding next
next-reading all ws w i e there =
    let here : current (reading all i) ≡ w = current-reading all (w ∷ ws) i e in
    rw (here, there) refl

-- What may follow a filter that the method of this level has read.
abbrev pub stops_and : List Text → Bool
stops_and rest = not (text_eq (to_upper (head_word rest)) (codes "AND"))

abbrev pub may_follow : ℕ → List Text → Bool
may_follow zero rest = not (text_eq (to_upper (head_word rest)) (codes "OR")) && stops_and rest
may_follow (suc zero) rest = stops_and rest
may_follow _ rest = true

abbrev pub parse_at : ℕ → ℕ → Parser → Parsed Filter
parse_at zero = parse_or
parse_at (suc zero) = parse_and
parse_at (suc (suc zero)) = parse_not
parse_at _ = parse_primary

abbrev pub cost : ℕ → ℕ
cost zero = 4
cost (suc zero) = 3
cost (suc (suc zero)) = 2
cost _ = 1

-- The method of level `n` reads the words as the filter, wherever they stand.
abbrev pub Reads : ℕ → Filter → List Text → Type 0
Reads n f ws =
    (fuel : ℕ) (all rest : List Text) (i : ℕ)
    → drop i all ≡ ws ++ rest
    → 5 * length (ws ++ rest) + cost n ≤ fuel
    → may_follow n rest ≡ true
    → parse_at n fuel (reading all i) ≡ parsed f (reading all (i + length ws))

operator_word-filled : (op : Operator) → is_empty (operator_word op) ≡ false
operator_word-filled equal_to = refl
operator_word-filled greater_than = refl
operator_word-filled greater_than_or_equal_to = refl
operator_word-filled less_than = refl
operator_word-filled less_than_or_equal_to = refl
operator_word-filled not_equal_to = refl
operator_word-filled like = refl

condition-reading :
    (field value : Text) (op : Operator) (all rest : List Text) (i : ℕ)
    → IsField field
    → is_empty value ≡ false
    → drop i all ≡ field ∷ operator_word op ∷ value ∷ rest
    → condition (reading all i) ≡ parsed (cond field op value) (reading all (i + 3))
unfolding condition
condition-reading field value op all rest i named filled e =
    let e1 = drop-next i all _ _ e in
    let e2 = drop-next (i + 1) all _ _ e1 in
    let first = next-reading all _ field i e named.there in
    let second = next-reading all _ (operator_word op) (i + 1) e1 (operator_word-filled op) in
    let third = next-reading all _ value (i + 1 + 1) e2 filled in
    let same : i + 1 + 1 + 1 ≡ i + 3 = omega arith in
    rw (first, second, named.there, operator_word-filled op, ato_operation-operator_word op)
      (rw (first, second, third, filled, same) refl)

pub Reads-cond :
    (field value : Text) (op : Operator)
    → IsField field
    → is_empty value ≡ false
    → Reads 3 (cond field op value) (field ∷ operator_word op ∷ value ∷ [])
unfolding parse_primary
Reads-cond field value op named filled zero all rest i e enough follows = absurd (omega arith)
Reads-cond field value op named filled (suc fuel) all rest i e enough follows =
    let here : current (reading all i) ≡ field = current-reading all _ i e in
    rw (here, named.no_paren) (condition-reading field value op all rest i named filled e)
