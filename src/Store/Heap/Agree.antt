-- ===== src/Store/Heap/Agree.antt =====
-- Two orders that agree on the elements of a slice make the same heap of it.
use torii_db.Base.{
  ℕ, zero, suc, ◌+◌, ◌-◌, ◌*◌, ◌/◌, ◌<◌, Bool, false, ◌&&◌, some, List, [], ◌∷◌, ◌++◌, length,
  get_elem?, ltb, if◌then◌else◌, ◌≡◌, inl, inr, Option-cases, refl, ◌∙◌, arith,
}
use torii_db.Store.Heap.{swap, swap_found, less_at, less_found, up, down, push, fix_root, pop}
use torii_db.Store.Heap.Slots.{count, count-append, count-swap}

module _ {ℓ} {A : Type ℓ} where
  get_elem?-bound : (h : List A) (i : ℕ) (a : A) → get_elem? h i ≡ some a → i < length h
  get_elem?-bound [] i a e = absurd cc
  get_elem?-bound (x ∷ h) zero a e = omega arith
  get_elem?-bound (x ∷ h) (suc i) a e = omega (arith, get_elem?-bound h i a e)

  count-get_elem? :
      (p : A → Bool) (h : List A) (i : ℕ) (a : A)
      → count p h ≡ 0
      → get_elem? h i ≡ some a
      → p a ≡ false
  unfolding count
  count-get_elem? p [] i a none_there e = absurd cc
  count-get_elem? p (x ∷ h) zero a none_there e = ground (arith, e)
  count-get_elem? p (x ∷ h) (suc i) a none_there e = count-get_elem? p h i a (omega arith) e

  count-swap_any : (p : A → Bool) (h : List A) (i j : ℕ) → count p (swap h i j) ≡ count p h
  count-swap_any p h i j = elim (Option-cases (get_elem? h i)) [
    | inl e ↦ unfold swap in rw (e, swap_found) refl
    | inr (a, ha) ↦ elim (Option-cases (get_elem? h j)) [
      | inl e ↦ unfold swap in rw (ha, e, swap_found) refl
      | inr (b, hb) ↦ count-swap h i j (get_elem?-bound h i a ha) (get_elem?-bound h j b hb) p
    ]
  ]

-- `odd` marks the elements on which the orders may differ; a slice has none of them.
module _ {ℓ} {A : Type ℓ} (less other : A → A → Bool) (odd : A → Bool)
    (agree : (a b : A) → odd a ≡ false → odd b ≡ false → less a b ≡ other a b) where
  abbrev IsEven : List A → Type 0
  IsEven h = count odd h ≡ 0

  less_at-agree : (h : List A) (i j : ℕ) → IsEven h → less_at less h i j ≡ less_at other h i j
  less_at-agree h i j even = elim (Option-cases (get_elem? h i)) [
    | inl e ↦ unfold less_at in rw (e, less_found) refl
    | inr (a, ha) ↦ elim (Option-cases (get_elem? h j)) [
      | inl e ↦ unfold less_at in rw (ha, e, less_found) refl
      | inr (b, hb) ↦
          unfold less_at in
          rw (ha, hb)
            (agree a b (count-get_elem? odd h i a even ha) (count-get_elem? odd h j b even hb))
    ]
  ]

  up-agree : (fuel : ℕ) (h : List A) (j : ℕ) → IsEven h → up less fuel h j ≡ up other fuel h j
  unfolding up
  up-agree zero h j even = refl
  up-agree (suc fuel) h j even =
      let swapped = swap h ((j - 1) / 2) j in
      let rest =
        up-agree fuel swapped ((j - 1) / 2) (count-swap_any odd h ((j - 1) / 2) j ∙ even) in
      rw (less_at-agree h j ((j - 1) / 2) even, rest) refl

  down-agree :
      (fuel : ℕ) (h : List A) (i n : ℕ) → IsEven h → down less fuel h i n ≡ down other fuel h i n
  unfolding down
  down-agree zero h i n even = refl
  down-agree (suc fuel) h i n even =
      let right = 2 * i + 1 + 1 in
      let child = if ltb right n && less_at other h right (2 * i + 1) then right else 2 * i + 1 in
      let rest = down-agree fuel (swap h i child) child n (count-swap_any odd h i child ∙ even) in
      rw (less_at-agree h right (2 * i + 1) even, less_at-agree h child i even, rest) refl

  pub push-agree : (x : A) (h : List A) → odd x ≡ false → IsEven h → push less x h ≡ push other x h
  unfolding push
  push-agree x h plain even =
      up-agree (suc (length h)) (h ++ (x ∷ [])) (length h)
        (omega (arith, count-append odd h (x ∷ []), one))
    where
      one : count odd (x ∷ []) ≡ 0
      one = unfold count in ground arith

  pub fix_root-agree : (h : List A) → IsEven h → fix_root less h ≡ fix_root other h
  unfolding fix_root
  fix_root-agree h even = down-agree (length h) h 0 (length h) even

  pub pop-agree : (h : List A) → IsEven h → pop less h ≡ pop other h
  unfolding pop
  pop-agree h even =
      let n = length h - 1 in
      rw (down-agree n (swap h 0 n) 0 n (count-swap_any odd h 0 n ∙ even)) refl
