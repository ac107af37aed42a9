-- ===== src/Filter/Parser/Levels.antt =====
-- What one method of the parser of core/store/filter/parser.go reads, the methods above it read.
use torii_db.Base.{
  ℕ, zero, suc, ◌+◌, ◌<◌, Text, codes, text_eq, to_upper, true, false, List, [], ◌∷◌, ◌++◌, drop,
  length, length-append, ◌≡◌, ◌∙◌, refl, arith,
}
use mathlib.Core.List.{append_assoc}
use torii_db.Filter.Condition.{Filter, not_, none_left}
use torii_db.Filter.Parser.{
  parsed, current, close, gather, parse_primary, parse_not, and_rest, parse_and, or_rest, parse_or,
}
use torii_db.Filter.Parser.Print.{wrapped}
use torii_db.Filter.Parser.Reading.{
  reading, head_word, drop-next, drop-past, current-reading, next-reading, stops_and, may_follow,
  Reads,
}

pub lift_not :
    (f : Filter) (w : Text) (ws : List Text)
    → text_eq (to_upper w) (codes "NOT") ≡ false
    → Reads 3 f (w ∷ ws)
    → Reads 2 f (w ∷ ws)
unfolding parse_not
lift_not f w ws plain r zero all rest i e enough follows = absurd (omega arith)
lift_not f w ws plain r (suc fuel) all rest i e enough follows =
    let here : current (reading all i) ≡ w = current-reading all _ i e in
    rw (here, plain) (r fuel all rest i e (omega arith) refl)

pub Reads-not : (f : Filter) (ws : List Text) → Reads 2 f ws → Reads 2 (not_ f) (codes "NOT" ∷ ws)
unfolding parse_not to_upper text_eq
Reads-not f ws r zero all rest i e enough follows = absurd (omega arith)
Reads-not f ws r (suc fuel) all rest i e enough follows =
    let here : current (reading all i) ≡ codes "NOT" = current-reading all _ i e in
    let step = next-reading all _ (codes "NOT") i e refl in
    let inner = r fuel all rest (i + 1) (drop-next i all _ _ e) (omega arith) refl in
    let same : i + 1 + length ws ≡ i + suc (length ws) = omega arith in
    rw (here, step, inner, same) refl

-- The loop of `And` ends at a word that is not AND.
pub and_stops :
    (fuel : ℕ) (all rest : List Text) (i : ℕ)
    → 0 < fuel
    → drop i all ≡ rest
    → stops_and rest ≡ true
    → and_rest fuel (reading all i) ≡ parsed none_left (reading all i)
unfolding and_rest
and_stops zero all rest i some_fuel e stops = absurd (omega arith)
and_stops (suc fuel) all rest i some_fuel e stops =
    let here = current-reading all rest i e in
    let other : text_eq (to_upper (head_word rest)) (codes "AND") ≡ false = ground (arith, stops) in
    rw (here, other) refl

pub or_stops :
    (fuel : ℕ) (all rest : List Text) (i : ℕ)
    → 0 < fuel
    → drop i all ≡ rest
    → may_follow 0 rest ≡ true
    → or_rest fuel (reading all i) ≡ parsed none_left (reading all i)
unfolding or_rest
or_stops zero all rest i some_fuel e stops = absurd (omega arith)
or_stops (suc fuel) all rest i some_fuel e stops =
    let here = current-reading all rest i e in
    let other : text_eq (to_upper (head_word rest)) (codes "OR") ≡ false = ground (arith, stops) in
    rw (here, other) refl

pub lift_and : (f : Filter) (ws : List Text) → Reads 2 f ws → Reads 1 f ws
unfolding parse_and gather
lift_and f ws r zero all rest i e enough follows = absurd (omega arith)
lift_and f ws r (suc fuel) all rest i e enough follows =
    let first = r fuel all rest i e (omega arith) refl in
    let ends =
      and_stops fuel all rest (i + length ws) (omega arith) (drop-past all ws rest i e) follows in
    rw (first, ends) refl

pub lift_or : (f : Filter) (ws : List Text) → Reads 1 f ws → Reads 0 f ws
unfolding parse_or gather
lift_or f ws r zero all rest i e enough follows = absurd (omega arith)
lift_or f ws r (suc fuel) all rest i e enough follows =
    let calm : stops_and rest ≡ true = ground (arith, follows) in
    let first = r fuel all rest i e (omega arith) calm in
    let ends =
      or_stops fuel all rest (i + length ws) (omega arith) (drop-past all ws rest i e) follows in
    rw (first, ends) refl

pub Reads-wrapped : (f : Filter) (ws : List Text) → Reads 0 f ws → Reads 3 f (wrapped ws)
unfolding parse_primary close text_eq to_upper
Reads-wrapped f ws r zero all rest i e enough follows = absurd (omega arith)
Reads-wrapped f ws r (suc fuel) all rest i e enough follows =
    let here : current (reading all i) ≡ codes "(" = current-reading all _ i e in
    let step = next-reading all _ (codes "(") i e refl in
    let sizes = length-append (ws ++ (codes ")" ∷ [])) rest in
    let sizes2 = length-append ws (codes ")" ∷ []) in
    let sizes3 = length-append ws (codes ")" ∷ rest) in
    let e1 = drop-next i all _ _ e ∙ append_assoc ws (codes ")" ∷ []) rest in
    let inner = r fuel all (codes ")" ∷ rest) (i + 1) e1 (omega arith) refl in
    let e2 = drop-past all ws (codes ")" ∷ rest) (i + 1) e1 in
    let last = next-reading all rest (codes ")") (i + 1 + length ws) e2 refl in
    let same : i + 1 + length ws + 1 ≡ i + suc (length (ws ++ (codes ")" ∷ []))) = omega arith in
    rw (here, step, inner, last, same) refl
