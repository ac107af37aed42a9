-- ===== src/Store/Heap/Order.antt =====
-- The heap order over the keys of the elements, and what `up` and `down` restore.
use torii_db.Base.{
  ℕ, ◌-◌, ◌/◌, ◌≤◌, ◌<◌, Bool, Option, none, some, List, length, get_elem?, ltb, ◌==◌,
  if◌then◌else◌, ◌≡◌, refl, ap, ◌∙◌, arith,
}
use torii_db.Store.Heap.{swap, less_at}
use torii_db.Store.Heap.Slots.{count, length-swap, count-swap, get_elem?-swap, get_elem?-found}

abbrev pub parent : ℕ → ℕ
parent c = (c - 1) / 2

module _ {ℓ} {A : Type ℓ} (key : A → ℕ) where
  abbrev pub by_key : A → A → Bool
  by_key a b = ltb (key a) (key b)

  key_of : Option A → ℕ
  key_of none = 0
  key_of (some a) = key a

  -- The key at a place
  unfoldable pub rank : List A → ℕ → ℕ
  unfolding key_of
  rank h i = key_of (get_elem? h i)

  pub rank-some : (h : List A) (i : ℕ) (a : A) → get_elem? h i ≡ some a → rank h i ≡ key a
  unfolding rank
  rank-some h i a e = rw e refl

  pub rank-swap :
      (h : List A) (i j c : ℕ)
      → i < length h
      → j < length h
      → rank (swap h i j) c ≡ (if j == c then rank h i else if i == c then rank h j else rank h c)
  unfolding rank
  rank-swap h i j c hi hj = ground (arith, ap key_of (get_elem?-swap h i j hi hj c))

  pub less_at-rank :
      (h : List A) (i j : ℕ)
      → i < length h
      → j < length h
      → less_at by_key h i j ≡ ltb (rank h i) (rank h j)
  unfolding less_at rank
  less_at-rank h i j hi hj =
      let (a, ha) = get_elem?-found h i hi in
      let (b, hb) = get_elem?-found h j hj in rw (ha, hb) refl

  -- The first `n` places are in order: no key is below that of its parent.
  abbrev pub IsHeap : ℕ → List A → Type 0
  IsHeap n h = (c : ℕ) → 0 < c → c < n → rank h (parent c) ≤ rank h c

  -- The edges past `i`, from its parent to its children
  abbrev pub IsBridged : ℕ → List A → ℕ → Type 0
  IsBridged n h i = (c : ℕ) → 0 < c → c < n → parent c ≡ i → 0 < i → rank h (parent i) ≤ rank h c

  -- The first `n` places are put in order, the others stay, and no element comes or goes.
  pub record Sifted (n : ℕ) (h after : List A) : Type ℓ where
    pub heap : IsHeap n after
    pub size : length after ≡ length h
    pub same : (p : A → Bool) → count p after ≡ count p h
    pub beyond : (c : ℕ) → n ≤ c → get_elem? after c ≡ get_elem? h c

  pub settled : (n : ℕ) (h : List A) → IsHeap n h → Sifted n h h
  settled n h heap = record { heap = heap; size = refl; same = λ p. refl; beyond = λ c le. refl }

  pub Sifted-swap :
      (n i j : ℕ) (h after : List A)
      → n ≤ length h
      → i < n
      → j < n
      → Sifted n (swap h i j) after
      → Sifted n h after
  Sifted-swap n i j h after fits hi hj s = record {
    heap = s.heap;
    size = s.size ∙ length-swap h i j;
    same = λ p. s.same p ∙ count-swap h i j (omega arith) (omega arith) p;
    beyond =
        λ c le. ground (arith, s.beyond c le, get_elem?-swap h i j (omega arith) (omega arith) c);
  }
