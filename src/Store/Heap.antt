-- ===== src/Store/Heap.antt =====
-- The heap of core/store/vsearch.go: `container/heap` over a slice of items, ordered by `Less`.
pub mod Slots
pub mod Order
pub mod Sift
pub mod Laws
pub mod Agree
use torii_db.Base.{
  ℕ, zero, suc, ◌+◌, ◌-◌, ◌*◌, ◌/◌, Bool, false, ◌&&◌, ◌||◌, not, Option, some, List, [], ◌∷◌, ◌++◌,
  length, get_elem?, take, ltb, leb, ◌==◌, if◌then◌else◌,
}

module _ {ℓ} {A : Type ℓ} where
  unfoldable pub set_elem : List A → ℕ → A → List A
  set_elem [] i v = []
  set_elem (x ∷ xs) zero v = v ∷ xs
  set_elem (x ∷ xs) (suc i) v = x ∷ set_elem xs i v

  swap_found : List A → ℕ → ℕ → Option A → Option A → List A
  swap_found h i j (some a) (some b) = set_elem (set_elem h i b) j a
  swap_found h i j _ _ = h

  -- `h[i], h[j] = h[j], h[i]`
  unfoldable pub swap : List A → ℕ → ℕ → List A
  unfolding set_elem swap_found
  swap h i j = swap_found h i j (get_elem? h i) (get_elem? h j)

module _ {ℓ} {A : Type ℓ} (less : A → A → Bool) where
  less_found : Option A → Option A → Bool
  less_found (some a) (some b) = less a b
  less_found _ _ = false

  unfoldable pub less_at : List A → ℕ → ℕ → Bool
  unfolding less_found
  less_at h i j = less_found (get_elem? h i) (get_elem? h j)

  -- `up(h, j)`: the index at least halves, so fuel `suc j` is enough.
  unfoldable pub up : ℕ → List A → ℕ → List A
  unfolding less_at swap
  up zero h j = h
  up (suc fuel) h j =
      let i = (j - 1) / 2 in
      let rest = up fuel (swap h i j) i in if j == 0 || not (less_at h j i) then h else rest

  -- `down(h, i, n)`: the index at least doubles, so fuel `n` is enough.
  unfoldable pub down : ℕ → List A → ℕ → ℕ → List A
  unfolding less_at swap
  down zero h i n = h
  down (suc fuel) h i n =
      let j1 = 2 * i + 1 in
      let j = if ltb (j1 + 1) n && less_at h (j1 + 1) j1 then j1 + 1 else j1 in
      let rest = down fuel (swap h i j) j n in if leb n j1 || not (less_at h j i) then h else rest

  -- `heap.Push`
  unfoldable pub push : A → List A → List A
  unfolding up
  push x h = up (suc (length h)) (h ++ (x ∷ [])) (length h)

  -- `heap.Fix(h, 0)`: at the root `up` has nothing to do.
  unfoldable pub fix_root : List A → List A
  unfolding down
  fix_root h = down (length h) h 0 (length h)

  -- `heap.Pop`: the root goes to the end, the rest is mended, and the end is taken off.
  unfoldable pub pop : List A → Option A × List A
  unfolding down swap
  pop h = let n = length h - 1 in let h' = down n (swap h 0 n) 0 n in (get_elem? h' n, take n h')
