-- ===== src/Store/Heap/Laws.antt =====
-- `heap.Push`, `heap.Fix` of the root and `heap.Pop` on a heap.
use torii_db.Base.{
  ℕ, zero, suc, ◌+◌, ◌-◌, ◌≤◌, ◌<◌, Bool, Option, some, List, [], ◌∷◌, ◌++◌, length, length-append,
  length-take, get_elem?, take, ltb, ◌==◌, if◌then◌else◌, ◌≡◌, inl, inr, Bool-cases, refl, ap, ◌∙◌,
  arith,
}
use torii_db.Store.Heap.{swap, up, down, push, fix_root, pop}
use torii_db.Store.Heap.Slots.{
  count, count-swap, length-swap, count-append, get_elem?-append, get_elem?-take, get_elem?-swap,
  take-append-last,
}
use torii_db.Store.Heap.Order.{parent, by_key, rank, rank-swap, IsHeap, Sifted}
use torii_db.Store.Heap.Sift.{up-Sifted, down-Sifted}

module _ {ℓ} {A : Type ℓ} (key : A → ℕ) where
  -- A heap over all its places
  abbrev pub IsWhole : List A → Type 0
  IsWhole h = IsHeap key (length h) h

  -- No key is below `m`.
  abbrev pub IsAbove : ℕ → List A → Type 0
  IsAbove m h = count (λ x. ltb (key x) m) h ≡ 0

  IsAbove-ranks : (m : ℕ) (h : List A) → ((c : ℕ) → c < length h → m ≤ rank key h c) → IsAbove m h
  unfolding count rank
  IsAbove-ranks m [] k = refl
  IsAbove-ranks m (x ∷ h) k =
      let rest = IsAbove-ranks m h (λ c lt. k (suc c) (omega arith)) in
      ground (arith, k 0 (omega arith), rest)

  root-least :
      (fuel n : ℕ) (h : List A) (c : ℕ)
      → IsHeap key n h
      → c < fuel
      → c < n
      → rank key h 0 ≤ rank key h c
  root-least zero n h c heap enough lt = absurd (omega arith)
  root-least (suc fuel) n h c heap enough lt = elim (Bool-cases (c == 0)) [
    | inl root ↦ ground arith
    | inr inner ↦
        ground (arith, heap c, root-least fuel n h (parent c) heap (ground arith) (ground arith))
  ]

  -- The root of a heap has the lowest key.
  pub IsWhole-IsAbove : (x : A) (h : List A) → IsWhole (x ∷ h) → IsAbove (key x) (x ∷ h)
  IsWhole-IsAbove x h heap =
      IsAbove-ranks (key x) (x ∷ h)
        (λ c lt. unfold rank in root-least (suc c) (suc (length h)) (x ∷ h) c heap (omega arith) lt)

  rank-append :
      (h : List A) (x : A) (c : ℕ) → c < length h → rank key (h ++ (x ∷ [])) c ≡ rank key h c
  unfolding rank
  rank-append h x c lt = rw (get_elem?-append h (x ∷ []) c lt) refl

  pub push-IsWhole :
      (x : A) (h : List A)
      → IsWhole h
      → IsWhole (push (by_key key) x h)
        × (length (push (by_key key) x h) ≡ suc (length h))
        × ((p : A → Bool) → count p (push (by_key key) x h) ≡ count p (x ∷ h))
  unfolding push
  push-IsWhole x h heap =
      let size = length-append h (x ∷ []) in
      let s =
        up-Sifted key (suc (length h)) (suc (length h)) (h ++ (x ∷ [])) (length h)
          (omega (arith, size)) (omega arith)
          (record {
            inside = omega arith;
            edges =
                λ c p q r. ground (arith, rank-append h x c, rank-append h x (parent c), heap c);
            bridged = λ c p q r t. absurd (omega arith);
          }) in
      let long : length (up (by_key key) (suc (length h)) (h ++ (x ∷ [])) (length h))
          ≡ suc (length h) =
        omega (arith, s.size, size) in
      (
        rw long s.heap,
        long,
        λ p. s.same p ∙ (count-append p h (x ∷ []) ∙ unfold count in omega arith),
      )

  -- Behind the root it does not matter what the root is.
  rank-tail : (x old : A) (h : List A) (c : ℕ) → 0 < c → rank key (x ∷ h) c ≡ rank key (old ∷ h) c
  unfolding rank
  rank-tail x old h zero positive = absurd (omega arith)
  rank-tail x old h (suc c) positive = refl

  pub fix_root-IsWhole :
      (x old : A) (h : List A)
      → IsWhole (old ∷ h)
      → IsWhole (fix_root (by_key key) (x ∷ h))
        × (length (fix_root (by_key key) (x ∷ h)) ≡ suc (length h))
        × ((p : A → Bool) → count p (fix_root (by_key key) (x ∷ h)) ≡ count p (x ∷ h))
  unfolding fix_root
  fix_root-IsWhole x old h heap =
      let s =
        down-Sifted key (suc (length h)) (suc (length h)) (x ∷ h) 0 (omega arith) (omega arith)
          (record {
            edges = λ c p q r.
                ground (arith, rank-tail x old h c, rank-tail x old h (parent c), heap c);
            bridged = λ c p q r t. absurd (omega arith);
          }) in
      (rw s.size s.heap, s.size, s.same)

  -- What a Pop gives and leaves.
  pub record Popped (h : List A) (r : Option A × List A) : Type ℓ where
    pub root : A
    pub given : r.0 ≡ some root
    pub lowest : IsAbove (key root) h
    pub rest : IsWhole r.1
    pub size : suc (length r.1) ≡ length h
    pub same : (p : A → Bool) → count p h ≡ (if p root then 1 else 0) + count p r.1

  module _ (x : A) (t : List A) (heap : IsWhole (x ∷ t)) where
    abbrev last_place : ℕ
    last_place = length (x ∷ t) - 1

    abbrev mended : List A
    mended = down (by_key key) last_place (swap (x ∷ t) 0 last_place) 0 last_place

    mended-Sifted : Sifted key last_place (swap (x ∷ t) 0 last_place) mended
    mended-Sifted =
        let size = length-swap (x ∷ t) 0 last_place in
        let at = λ (c : ℕ). rank-swap key (x ∷ t) 0 last_place c (omega arith) (omega arith) in
        down-Sifted key last_place last_place (swap (x ∷ t) 0 last_place) 0 (omega (arith, size))
          (omega arith)
          (record {
            edges = λ c p q r. ground (arith, at c, at (parent c), heap c);
            bridged = λ c p q r u. absurd (omega arith);
          })

    -- The old root is last.
    mended-last : get_elem? mended last_place ≡ some x
    mended-last =
        mended-Sifted.beyond last_place (omega arith)
        ∙ ground (arith, get_elem?-swap (x ∷ t) 0 last_place (omega arith) (omega arith) last_place)

    length-mended : length mended ≡ suc (length t)
    length-mended = mended-Sifted.size ∙ length-swap (x ∷ t) 0 last_place

    whole-mended : take last_place mended ++ (x ∷ []) ≡ mended
    whole-mended = take-append-last last_place mended x (omega (arith, length-mended)) mended-last

    length-rest : length (take last_place mended) ≡ last_place
    length-rest = omega (arith, length-take last_place mended, length-mended)

    rank-rest : (c : ℕ) → c < last_place → rank key (take last_place mended) c ≡ rank key mended c
    unfolding rank
    rank-rest c lt = rw (get_elem?-take last_place c mended lt) refl

    rest-IsWhole : IsWhole (take last_place mended)
    rest-IsWhole c positive lt =
        let inside : c < last_place = omega (arith, length-rest) in
        ground (arith, rank-rest c, rank-rest (parent c), mended-Sifted.heap c)

    count-rest :
        (p : A → Bool) → count p (x ∷ t) ≡ (if p x then 1 else 0) + count p (take last_place mended)
    count-rest p =
        let swapped = count-swap (x ∷ t) 0 last_place (omega arith) (omega arith) p in
        let split = count-append p (take last_place mended) (x ∷ []) in
        let whole = ap (count p) whole-mended in
        let one : count p (x ∷ []) ≡ (if p x then 1 else 0) = unfold count in omega arith in
        omega (arith, mended-Sifted.same p)

    pub pop-Popped : Popped (x ∷ t) (pop (by_key key) (x ∷ t))
    unfolding pop
    pop-Popped = record {
      root = x;
      given = mended-last;
      lowest = IsWhole-IsAbove x t heap;
      rest = rest-IsWhole;
      size = omega (arith, length-rest);
      same = count-rest;
    }
