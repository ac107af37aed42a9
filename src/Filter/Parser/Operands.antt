-- ===== src/Filter/Parser/Operands.antt =====
-- The loops of `And` and `Or` of core/store/filter/parser.go over operands that can be read.
use torii_db.Base.{
  ℕ, zero, suc, ◌+◌, ◌*◌, ◌≤◌, Text, codes, text_eq, to_upper, true, List, [], ◌∷◌, ◌++◌, drop,
  length, length-append, ◌≡◌, ◌∙◌, refl, ap, arith,
}
use mathlib.Core.List.{append_assoc}
use torii_db.Filter.Condition.{Filter, Filters, and_, or_, none_left, also}
use torii_db.Filter.Parser.{parsed, current, gather, and_rest, parse_and, or_rest, parse_or}
use torii_db.Filter.Parser.Reading.{
  reading, drop-next, drop-past, current-reading, next-reading, stops_and, may_follow, Reads,
}
use torii_db.Filter.Parser.Levels.{and_stops, or_stops}

-- The loop of `And` reads the words as these operands.
abbrev pub AndReads : Filters → List Text → Type 0
AndReads fs ws =
    (fuel : ℕ) (all rest : List Text) (i : ℕ)
    → drop i all ≡ ws ++ rest
    → 5 * length (ws ++ rest) + 1 ≤ fuel
    → stops_and rest ≡ true
    → and_rest fuel (reading all i) ≡ parsed fs (reading all (i + length ws))

abbrev pub OrReads : Filters → List Text → Type 0
OrReads fs ws =
    (fuel : ℕ) (all rest : List Text) (i : ℕ)
    → drop i all ≡ ws ++ rest
    → 5 * length (ws ++ rest) + 1 ≤ fuel
    → may_follow 0 rest ≡ true
    → or_rest fuel (reading all i) ≡ parsed fs (reading all (i + length ws))

pub AndReads-nil : AndReads none_left []
AndReads-nil fuel all rest i e enough stops =
    let same : i + 0 ≡ i = omega arith in rw same (and_stops fuel all rest i (omega arith) e stops)

pub OrReads-nil : OrReads none_left []
OrReads-nil fuel all rest i e enough stops =
    let same : i + 0 ≡ i = omega arith in rw same (or_stops fuel all rest i (omega arith) e stops)

pub AndReads-also :
    (f : Filter) (fs : Filters) (ws vs : List Text)
    → Reads 2 f ws
    → AndReads fs vs
    → AndReads (also f fs) (codes "AND" ∷ (ws ++ vs))
unfolding and_rest to_upper text_eq
AndReads-also f fs ws vs r rs zero all rest i e enough stops = absurd (omega arith)
AndReads-also f fs ws vs r rs (suc fuel) all rest i e enough stops =
    let here : current (reading all i) ≡ codes "AND" = current-reading all _ i e in
    let step = next-reading all _ (codes "AND") i e refl in
    let e1 = drop-next i all _ _ e ∙ append_assoc ws vs rest in
    let size = ap (λ (l : List Text). length l) (append_assoc ws vs rest) in
    let size2 = length-append ws (vs ++ rest) in
    let first = r fuel all (vs ++ rest) (i + 1) e1 (omega arith) refl in
    let e2 = drop-past all ws (vs ++ rest) (i + 1) e1 in
    let others = rs fuel all rest (i + 1 + length ws) e2 (omega arith) stops in
    let same : i + 1 + length ws + length vs ≡ i + suc (length (ws ++ vs)) =
      omega (arith, length-append ws vs) in
    rw (here, step, first, others, same) refl

-- A list of two operands or more
pub and_gathers :
    (f g : Filter) (fs : Filters) (ws vs : List Text)
    → Reads 2 f ws
    → AndReads (also g fs) vs
    → Reads 1 (and_ (also f (also g fs))) (ws ++ vs)
unfolding parse_and gather
and_gathers f g fs ws vs r rs zero all rest i e enough stops = absurd (omega arith)
and_gathers f g fs ws vs r rs (suc fuel) all rest i e enough stops =
    let e1 = e ∙ append_assoc ws vs rest in
    let size = ap (λ (l : List Text). length l) (append_assoc ws vs rest) in
    let size2 = length-append ws (vs ++ rest) in
    let first = r fuel all (vs ++ rest) i e1 (omega arith) refl in
    let e2 = drop-past all ws (vs ++ rest) i e1 in
    let others = rs fuel all rest (i + length ws) e2 (omega arith) stops in
    let same : i + length ws + length vs ≡ i + length (ws ++ vs) =
      omega (arith, length-append ws vs) in
    rw (first, others, same) refl

-- Behind an operand of `Or` there is OR, or what stops the loop.
abbrev pub OrStarts : List Text → Type 0
OrStarts vs = (rest : List Text) → may_follow 0 rest ≡ true → stops_and (vs ++ rest) ≡ true

pub OrReads-also :
    (f : Filter) (fs : Filters) (ws vs : List Text)
    → OrStarts vs
    → Reads 1 f ws
    → OrReads fs vs
    → OrReads (also f fs) (codes "OR" ∷ (ws ++ vs))
unfolding or_rest to_upper text_eq
OrReads-also f fs ws vs starts r rs zero all rest i e enough stops = absurd (omega arith)
OrReads-also f fs ws vs starts r rs (suc fuel) all rest i e enough stops =
    let here : current (reading all i) ≡ codes "OR" = current-reading all _ i e in
    let step = next-reading all _ (codes "OR") i e refl in
    let e1 = drop-next i all _ _ e ∙ append_assoc ws vs rest in
    let size = ap (λ (l : List Text). length l) (append_assoc ws vs rest) in
    let size2 = length-append ws (vs ++ rest) in
    let first = r fuel all (vs ++ rest) (i + 1) e1 (omega arith) (starts rest stops) in
    let e2 = drop-past all ws (vs ++ rest) (i + 1) e1 in
    let others = rs fuel all rest (i + 1 + length ws) e2 (omega arith) stops in
    let same : i + 1 + length ws + length vs ≡ i + suc (length (ws ++ vs)) =
      omega (arith, length-append ws vs) in
    rw (here, step, first, others, same) refl

pub or_gathers :
    (f g : Filter) (fs : Filters) (ws vs : List Text)
    → OrStarts vs
    → Reads 1 f ws
    → OrReads (also g fs) vs
    → Reads 0 (or_ (also f (also g fs))) (ws ++ vs)
unfolding parse_or gather
or_gathers f g fs ws vs starts r rs zero all rest i e enough stops = absurd (omega arith)
or_gathers f g fs ws vs starts r rs (suc fuel) all rest i e enough stops =
    let e1 = e ∙ append_assoc ws vs rest in
    let size = ap (λ (l : List Text). length l) (append_assoc ws vs rest) in
    let size2 = length-append ws (vs ++ rest) in
    let first = r fuel all (vs ++ rest) i e1 (omega arith) (starts rest stops) in
    let e2 = drop-past all ws (vs ++ rest) i e1 in
    let others = rs fuel all rest (i + length ws) e2 (omega arith) stops in
    let same : i + length ws + length vs ≡ i + length (ws ++ vs) =
      omega (arith, length-append ws vs) in
    rw (first, others, same) refl
