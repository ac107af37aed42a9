-- ===== src/Store/Heap/Sift.antt =====
-- `up` mends the edge above a place, `down` the edges below it.
use torii_db.Base.{
  ℕ, zero, suc, ◌+◌, ◌*◌, ◌≤◌, ◌<◌, ◌&&◌, List, length, ltb, leb, ◌==◌, if◌then◌else◌, ◌≡◌, ◌≢◌,
  inl, inr, Bool-cases, arith,
}
use torii_db.Store.Heap.{swap, less_at, up, down}
use torii_db.Store.Heap.Slots.{length-swap}
use torii_db.Store.Heap.Order.{
  parent, by_key, rank, rank-swap, less_at-rank, IsBridged, Sifted, settled, Sifted-swap,
}

module _ {ℓ} {A : Type ℓ} (key : A → ℕ) where
  -- Only the edge above `i` may be out of order.
  pub record UpInv (n : ℕ) (h : List A) (i : ℕ) : Type 0 where
    pub inside : i < n
    pub edges : (c : ℕ) → 0 < c → c < n → c ≢ i → rank key h (parent c) ≤ rank key h c
    pub bridged : IsBridged key n h i

  swap-UpInv :
      (n : ℕ) (h : List A) (i : ℕ)
      → n ≤ length h
      → UpInv n h i
      → 0 < i
      → rank key h i < rank key h (parent i)
      → UpInv n (swap h (parent i) i) (parent i)
  swap-UpInv n h i fits v positive below =
      let at = λ (c : ℕ).
        rank-swap key h (parent i) i c (omega (arith, v.inside)) (omega (arith, v.inside)) in
      record {
        inside = omega (arith, v.inside);
        edges = λ c p q r. ground (arith, at c, at (parent c), v.edges c, v.bridged c);
        bridged = λ c p q r t.
            ground (arith, at c, at (parent (parent i)), v.edges c, v.edges (parent i));
      }

  pub up-Sifted :
      (fuel n : ℕ) (h : List A) (j : ℕ)
      → n ≤ length h
      → j < fuel
      → UpInv n h j
      → Sifted key n h (up (by_key key) fuel h j)
  unfolding up
  up-Sifted zero n h j fits enough v = absurd (omega arith)
  up-Sifted (suc fuel) n h j fits enough v = elim (Bool-cases (j == 0)) [
    | inl root ↦ rw root (settled key n h (λ c p q. v.edges c p q (ground arith)))
    | inr inner ↦
        let less =
          less_at-rank key h j (parent j) (omega (arith, v.inside)) (omega (arith, v.inside)) in
        elim (Bool-cases (ltb (rank key h j) (rank key h (parent j)))) [
          | inr fine ↦ rw (inner, less, fine) (settled key n h (λ c p q. ground (arith, v.edges c)))
          | inl below ↦
              let positive : 0 < j = ground arith in
              let size = length-swap h (parent j) j in
              rw (inner, less, below)
                (Sifted-swap key n (parent j) j h _ fits (omega (arith, v.inside)) v.inside (
                  up-Sifted fuel n (swap h (parent j) j) (parent j) (omega (arith, size))
                    (omega arith) (swap-UpInv n h j fits v positive (ground arith))))
        ]
  ]

  -- Only the edges below `i` may be out of order.
  pub record DownInv (n : ℕ) (h : List A) (i : ℕ) : Type 0 where
    pub edges : (c : ℕ) → 0 < c → c < n → parent c ≢ i → rank key h (parent c) ≤ rank key h c
    pub bridged : IsBridged key n h i

  -- `m` is the child of `i` with the lower key.
  record IsLeastChild (n : ℕ) (h : List A) (i m : ℕ) : Type 0 where
    inside : m < n
    child : parent m ≡ i
    positive : 0 < m
    least : (c : ℕ) → 0 < c → c < n → parent c ≡ i → rank key h m ≤ rank key h c

  abbrev least_child : ℕ → List A → ℕ → ℕ
  least_child n h i =
      if ltb (2 * i + 1 + 1) n && less_at (by_key key) h (2 * i + 1 + 1) (2 * i + 1)
      then 2 * i + 1 + 1
      else 2 * i + 1

  least_child-IsLeastChild :
      (n : ℕ) (h : List A) (i : ℕ)
      → n ≤ length h
      → 2 * i + 1 < n
      → IsLeastChild n h i (least_child n h i)
  least_child-IsLeastChild n h i fits has = elim (Bool-cases (ltb (2 * i + 1 + 1) n)) [
    | inr one ↦ rw one (record {
      inside = has;
      child = omega arith;
      positive = omega arith;
      least = λ c p q r. ground arith;
    })
    | inl two ↦
        let less = less_at-rank key h (2 * i + 1 + 1) (2 * i + 1) (ground arith) (omega arith) in
        elim (Bool-cases (ltb (rank key h (2 * i + 1 + 1)) (rank key h (2 * i + 1)))) [
          | inl right ↦
              rw (two, less, right)
                (record {
                  inside = ground arith;
                  child = omega arith;
                  positive = omega arith;
                  least = λ c p q r. ground arith;
                })
          | inr left ↦
              rw (two, less, left)
                (record {
                  inside = has;
                  child = omega arith;
                  positive = omega arith;
                  least = λ c p q r. ground arith;
                })
        ]
  ]

  swap-DownInv :
      (n : ℕ) (h : List A) (i m : ℕ)
      → n ≤ length h
      → i < n
      → DownInv n h i
      → IsLeastChild n h i m
      → rank key h m < rank key h i
      → DownInv n (swap h i m) m
  swap-DownInv n h i m fits inside v s below =
      let at = λ (c : ℕ). rank-swap key h i m c (omega arith) (omega (arith, s.inside)) in
      let child = s.child in
      let positive = s.positive in
      let there = s.inside in
      record {
        edges = λ c p q r. ground (arith, at c, at (parent c), v.edges c, v.bridged m, s.least c);
        bridged = λ c p q r t. ground (arith, at c, at (parent m), v.edges c);
      }

  pub down-Sifted :
      (fuel n : ℕ) (h : List A) (i : ℕ)
      → n ≤ length h
      → n ≤ i + fuel
      → DownInv n h i
      → Sifted key n h (down (by_key key) fuel h i n)
  unfolding down
  down-Sifted zero n h i fits enough v = settled key n h (λ c p q. v.edges c p q (omega arith))
  down-Sifted (suc fuel) n h i fits enough v = elim (Bool-cases (leb n (2 * i + 1))) [
    | inl leaf ↦ rw leaf (settled key n h (λ c p q. v.edges c p q (ground arith)))
    | inr inner ↦
        let has : 2 * i + 1 < n = ground arith in
        let s = least_child-IsLeastChild n h i fits has in
        let m = least_child n h i in
        let there = s.inside in
        let child = s.child in
        let positive = s.positive in
        let less = less_at-rank key h m i (omega arith) (omega arith) in
        let size = length-swap h i m in
        elim (Bool-cases (ltb (rank key h m) (rank key h i))) [
          | inr fine ↦
              rw (inner, less, fine)
                (settled key n h (λ c p q. ground (arith, v.edges c, s.least c)))
          | inl below ↦
              rw (inner, less, below)
                (Sifted-swap key n i m h _ fits (omega arith) there (
                  down-Sifted fuel n (swap h i m) m (omega arith) (omega arith)
                    (swap-DownInv n h i m fits (omega arith) v s (ground arith))))
        ]
  ]
