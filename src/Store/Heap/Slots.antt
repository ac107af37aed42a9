-- ===== src/Store/Heap/Slots.antt =====
-- The places of a slice: what a write and a swap do to its elements.
use mathlib.Core.Option.{some-injective}
use torii_db.Base.{
  ℕ, zero, suc, ◌+◌, ◌≤◌, ◌<◌, Bool, true, Option, none, some, List, [], ◌∷◌, ◌++◌, length,
  get_elem?, take, ◌==◌, if◌then◌else◌, ◌≡◌, refl, sym, ap, ◌∙◌, arith,
}
use torii_db.Store.Heap.{set_elem, swap, swap_found}

module _ {ℓ} {A : Type ℓ} where
  -- How many elements pass a test.
  unfoldable pub count : (A → Bool) → List A → ℕ
  count p [] = 0
  count p (x ∷ xs) = (if p x then 1 else 0) + count p xs

  pub count_mono :
      (p q : A → Bool) (xs : List A) → ((a : A) → p a ≡ true → q a ≡ true) → count p xs ≤ count q xs
  unfolding count
  count_mono p q [] sub = omega arith
  count_mono p q (x ∷ xs) sub = ground (arith, sub x, count_mono p q xs sub)

  pub length-set_elem : (h : List A) (i : ℕ) (v : A) → length (set_elem h i v) ≡ length h
  unfolding set_elem
  length-set_elem [] i v = refl
  length-set_elem (x ∷ h) zero v = refl
  length-set_elem (x ∷ h) (suc i) v = ap suc (length-set_elem h i v)

  pub get_elem?-found : (h : List A) (i : ℕ) → i < length h → (a : A) × (get_elem? h i ≡ some a)
  get_elem?-found [] i lt = absurd (omega arith)
  get_elem?-found (x ∷ h) zero lt = (x, refl)
  get_elem?-found (x ∷ h) (suc i) lt = get_elem?-found h i (omega arith)

  pub get_elem?-set_elem :
      (h : List A) (i j : ℕ) (v : A)
      → i < length h
      → get_elem? (set_elem h i v) j ≡ (if i == j then some v else get_elem? h j)
  unfolding set_elem
  get_elem?-set_elem [] i j v lt = absurd (omega arith)
  get_elem?-set_elem (x ∷ h) zero zero v lt = refl
  get_elem?-set_elem (x ∷ h) zero (suc j) v lt = ground arith
  get_elem?-set_elem (x ∷ h) (suc i) zero v lt = ground arith
  get_elem?-set_elem (x ∷ h) (suc i) (suc j) v lt =
      ground (arith, get_elem?-set_elem h i j v (omega arith))

  -- A write trades the element that was there for the new one.
  count-set_elem :
      (p : A → Bool) (h : List A) (i : ℕ) (a v : A)
      → get_elem? h i ≡ some a
      → count p (set_elem h i v) + (if p a then 1 else 0) ≡ count p h + (if p v then 1 else 0)
  unfolding count set_elem
  count-set_elem p [] i a v e = absurd cc
  count-set_elem p (x ∷ h) zero a v e = ground (arith, e)
  count-set_elem p (x ∷ h) (suc i) a v e = ground (arith, count-set_elem p h i a v e)

  swap_found-length :
      (h : List A) (i j : ℕ) (a b : Option A) → length (swap_found h i j a b) ≡ length h
  unfolding swap_found
  swap_found-length h i j (some a) (some b) =
      length-set_elem (set_elem h i b) j a ∙ length-set_elem h i b
  swap_found-length h i j none b = refl
  swap_found-length h i j (some a) none = refl

  pub length-swap : (h : List A) (i j : ℕ) → length (swap h i j) ≡ length h
  unfolding swap
  length-swap h i j = swap_found-length h i j (get_elem? h i) (get_elem? h j)

  module _ (h : List A) (i j : ℕ) (hi : i < length h) (hj : j < length h) where
    swap-writes :
        (a b : A)
        → get_elem? h i ≡ some a
        → get_elem? h j ≡ some b
        → swap h i j ≡ set_elem (set_elem h i b) j a
    unfolding swap
    swap-writes a b ha hb = rw (ha, hb) refl

    pub get_elem?-swap :
        (c : ℕ)
        → get_elem? (swap h i j) c
          ≡ (if j == c then get_elem? h i else if i == c then get_elem? h j else get_elem? h c)
    get_elem?-swap c =
        let (a, ha) = get_elem?-found h i hi in
        let (b, hb) = get_elem?-found h j hj in
        let size = length-set_elem h i b in
        rw (swap-writes a b ha hb, ha, hb)
          (get_elem?-set_elem (set_elem h i b) j c a (omega (arith, size))
            ∙ ap (λ r. if j == c then some a else r) (get_elem?-set_elem h i c b hi))

    pub count-swap : (p : A → Bool) → count p (swap h i j) ≡ count p h
    count-swap p =
        let (a, ha) = get_elem?-found h i hi in
        let (b, hb) = get_elem?-found h j hj in
        let size = length-set_elem h i b in
        let there : get_elem? (set_elem h i b) j ≡ some b =
          ground (arith, get_elem?-set_elem h i j b hi) in
        rw (swap-writes a b ha hb) (
          omega (arith, count-set_elem p (set_elem h i b) j b a there, count-set_elem p h i a b ha))

  pub count-append : (p : A → Bool) (xs ys : List A) → count p (xs ++ ys) ≡ count p xs + count p ys
  unfolding count
  count-append p [] ys = omega arith
  count-append p (x ∷ xs) ys = omega (arith, count-append p xs ys)

  pub get_elem?-append :
      (xs ys : List A) (i : ℕ) → i < length xs → get_elem? (xs ++ ys) i ≡ get_elem? xs i
  get_elem?-append [] ys i lt = absurd (omega arith)
  get_elem?-append (x ∷ xs) ys zero lt = refl
  get_elem?-append (x ∷ xs) ys (suc i) lt = get_elem?-append xs ys i (omega arith)

  pub get_elem?-take : (n i : ℕ) (xs : List A) → i < n → get_elem? (take n xs) i ≡ get_elem? xs i
  get_elem?-take zero i xs lt = absurd (omega arith)
  get_elem?-take (suc n) i [] lt = refl
  get_elem?-take (suc n) zero (x ∷ xs) lt = refl
  get_elem?-take (suc n) (suc i) (x ∷ xs) lt = get_elem?-take n i xs (omega arith)

  -- The last element behind the others
  pub take-append-last :
      (n : ℕ) (xs : List A) (a : A)
      → length xs ≡ suc n
      → get_elem? xs n ≡ some a
      → take n xs ++ (a ∷ []) ≡ xs
  take-append-last n [] a h e = absurd cc
  take-append-last zero (x ∷ []) a h e = ap (λ (y : A). y ∷ []) (sym (some-injective _ _ e))
  take-append-last zero (x ∷ y ∷ xs) a h e = absurd (omega arith)
  take-append-last (suc n) (x ∷ xs) a h e =
      ap (λ (r : List A). x ∷ r) (take-append-last n xs a (omega arith) e)
