-- ===== src/Store/Search/Best.antt =====
-- The scan of core/store/vsearch.go keeps the best candidates: `scanTopK`, its loop over the map.
use torii_db.Base.{
  ℕ, ℤ, ◌+◌, ◌≤◌, ◌<◌, Bool, true, false, not, Text, Dict, none, some, List, [], ◌∷◌, ◌++◌, length,
  length-append, ltb, leb, if◌then◌else◌, ◌≡◌, inl, inr, Bool-cases, Option-cases, refl, sym, ap,
  ◌∙◌, arith,
}
use torii_db.External.{External}
use torii_db.Json.{Float}
use torii_db.Store.Entry.{Entry}
use torii_db.Store.Heap.{push, fix_root}
use torii_db.Store.Heap.Slots.{count, count-append, count_mono}
use torii_db.Store.Heap.Order.{by_key}
use torii_db.Store.Heap.Laws.{IsWhole, IsAbove, push-IsWhole, fix_root-IsWhole, IsWhole-IsAbove}
use torii_db.Store.Heap.Agree.{push-agree, fix_root-agree}
use torii_db.Store.Search.{VsearchItem, score_of, item_less, offer, scan_heap}

-- IEEE 754: the values that are equal to themselves (all but NaN) are ordered in one line.
pub record ScoreOrder (ext : External) : Type 0 where
  pub rank : Float → ℕ
  pub lt-rank :
      (a b : Float)
      → ext.float_eq a a ≡ true
      → ext.float_eq b b ≡ true
      → ext.float_lt a b ≡ ltb (rank a) (rank b)

module _ (ext : External) where
  -- The entries that take part in a search, with their scores, in the order of the map
  unfoldable pub candidates : List ℕ → Text → ℤ → Dict Entry → List VsearchItem
  candidates query pattern now [] = []
  candidates query pattern now ((k, e) ∷ m) =
      let rest = candidates query pattern now m in
      elim (score_of ext query pattern now k e) [
        | none ↦ rest
        | some score ↦ record { key = k; score = score } ∷ rest
      ]

  unfoldable pub offers : ℕ → List VsearchItem → List VsearchItem → List VsearchItem
  offers limit [] h = h
  offers limit (item ∷ items) h = offers limit items (offer ext limit item h)

  pub scan_heap-offers :
      (query : List ℕ) (pattern : Text) (limit : ℕ) (now : ℤ) (m : Dict Entry)
      (h : List VsearchItem)
      → scan_heap ext query pattern limit now m h ≡ offers limit (candidates query pattern now m) h
  unfolding scan_heap candidates offers score_of torii_db.Store.Vector.is_internal
  scan_heap-offers query pattern limit now [] h = refl
  scan_heap-offers query pattern limit now ((k, e) ∷ m) h =
      elim (Option-cases (score_of ext query pattern now k e)) [
        | inl none_there ↦ rw none_there (scan_heap-offers query pattern limit now m h)
        | inr (score, there) ↦ rw there (
            scan_heap-offers query pattern limit now m
              (offer ext limit (record { key = k; score = score }) h))
      ]

  unfoldable pub is_nan : VsearchItem → Bool
  is_nan item = not (ext.float_eq item.score item.score)

  module _ (order : ScoreOrder ext) where
    abbrev pub rank_of : VsearchItem → ℕ
    rank_of item = order.rank item.score

    pub item_less-rank :
        (a b : VsearchItem)
        → is_nan a ≡ false
        → is_nan b ≡ false
        → item_less ext a b ≡ by_key rank_of a b
    unfolding item_less is_nan
    item_less-rank a b na nb =
        order.lt-rank a.score b.score (ground (arith, na)) (ground (arith, nb))

    -- Of the candidates seen, the heap holds as many as it may, none of those left out has a
    -- score over `mark`, and none of those kept has one under it.
    pub record Kept (limit : ℕ) (seen h : List VsearchItem) : Type 0 where
      pub whole : IsWhole rank_of h
      pub left : List VsearchItem
      pub mark : ℕ
      pub size : length h ≡ (if leb (length seen) limit then length seen else limit)
      pub total : length h + length left ≡ length seen
      pub same : (p : VsearchItem → Bool) → count p h + count p left ≡ count p seen
      pub above : IsAbove rank_of mark h
      pub below : count (λ x. ltb mark (rank_of x)) left ≡ 0

    IsAbove-zero : (h : List VsearchItem) → IsAbove rank_of 0 h
    unfolding count
    IsAbove-zero [] = refl
    IsAbove-zero (x ∷ h) = ground (arith, IsAbove-zero h)

    empty-count :
        (left : List VsearchItem) (p : VsearchItem → Bool) → length left ≡ 0 → count p left ≡ 0
    unfolding count
    empty-count [] p e = refl
    empty-count (x ∷ left) p e = absurd (omega arith)

    lowest-root :
        (m : ℕ) (root : VsearchItem) (t : List VsearchItem)
        → IsAbove rank_of m (root ∷ t)
        → m ≤ rank_of root
    unfolding count
    lowest-root m root t over = ground (arith, over)

    -- None of those left out has a score over that of the root.
    beaten :
        (limit : ℕ) (seen : List VsearchItem) (root : VsearchItem) (t : List VsearchItem)
        (k : Kept limit seen (root ∷ t))
        → count (λ x. ltb (rank_of root) (rank_of x)) k.left ≡ 0
    beaten limit seen root t k =
        let lowest = lowest-root k.mark root t k.above in
        let fewer =
          count_mono (λ x. ltb (rank_of root) (rank_of x)) (λ x. ltb k.mark (rank_of x)) k.left
            (λ a over. ground (arith, lowest, over)) in
        omega (arith, fewer, k.below)

    module _ (limit : ℕ) (item : VsearchItem) (seen : List VsearchItem)
        (plain : count is_nan (item ∷ seen) ≡ 0) where
      item-plain : is_nan item ≡ false
      unfolding count
      item-plain = ground (arith, plain)

      heap-plain : (h : List VsearchItem) → Kept limit seen h → count is_nan h ≡ 0
      unfolding count
      heap-plain h k = omega (arith, k.same is_nan, plain)

      -- There is room: nothing was left out yet.
      push-Kept :
          (h : List VsearchItem)
          → Kept limit seen h
          → length h < limit
          → Kept limit (item ∷ seen) (push (item_less ext) item h)
      push-Kept h k room =
          let (whole, size, same) = push-IsWhole rank_of item h k.whole in
          let nothing : length k.left ≡ 0 = ground (arith, k.size, k.total) in
          let pushed =
            push-agree (item_less ext) (by_key rank_of) is_nan item_less-rank item h item-plain
              (heap-plain h k) in
          rw pushed (record {
            whole = whole;
            left = k.left;
            mark = 0;
            size = ground (arith, size, k.size, k.total, nothing);
            total = omega (arith, size, k.total);
            same = λ p. unfold count in omega (arith, same p, k.same p);
            above = IsAbove-zero _;
            below = empty-count k.left _ nothing;
          })

      -- The root goes to those left out, and is their highest.
      fix-Kept :
          (root : VsearchItem) (t : List VsearchItem)
          → Kept limit seen (root ∷ t)
          → ltb (length (root ∷ t)) limit ≡ false
          → ltb (rank_of root) (rank_of item) ≡ true
          → Kept limit (item ∷ seen) (fix_root (item_less ext) (item ∷ t))
      fix-Kept root t k packed better =
          let swapped-plain : count is_nan (root ∷ t) ≡ 0 → count is_nan (item ∷ t) ≡ 0 =
            λ e. unfold count in ground (arith, e, item-plain) in
          let (whole, size, same) = fix_root-IsWhole rank_of item root t k.whole in
          let lowest = IsWhole-IsAbove rank_of root t k.whole in
          let fixed =
            fix_root-agree (item_less ext) (by_key rank_of) is_nan item_less-rank (item ∷ t)
              (swapped-plain (heap-plain (root ∷ t) k)) in
          rw fixed (record {
            whole = whole;
            left = root ∷ k.left;
            mark = rank_of root;
            size = ground (arith, size, k.size, k.total, packed);
            total = omega (arith, size, k.total);
            same = λ p. unfold count in omega (arith, same p, k.same p);
            above = same _ ∙ unfold count in ground (arith, better, lowest);
            below = unfold count in ground (arith, beaten limit seen root t k);
          })

      -- The candidate itself is left out.
      skip-Kept :
          (root : VsearchItem) (t : List VsearchItem)
          → Kept limit seen (root ∷ t)
          → ltb (length (root ∷ t)) limit ≡ false
          → ltb (rank_of root) (rank_of item) ≡ false
          → Kept limit (item ∷ seen) (root ∷ t)
      skip-Kept root t k packed worse = record {
        whole = k.whole;
        left = item ∷ k.left;
        mark = rank_of root;
        size = ground (arith, k.size, k.total, packed);
        total = omega (arith, k.total);
        same = λ p. unfold count in omega (arith, k.same p);
        above = IsWhole-IsAbove rank_of root t k.whole;
        below = unfold count in ground (arith, worse, beaten limit seen root t k);
      }

      root-rank :
          (root : VsearchItem) (t : List VsearchItem)
          → Kept limit seen (root ∷ t)
          → ltb (rank_of root) (rank_of item) ≡ ext.float_lt root.score item.score
      unfolding item_less
      root-rank root t k = sym (
          item_less-rank root item
            (let e = heap-plain (root ∷ t) k in unfold count in ground (arith, e)) item-plain)

      offer-Kept :
          (h : List VsearchItem)
          → 0 < limit
          → Kept limit seen h
          → Kept limit (item ∷ seen) (offer ext limit item h)
      unfolding offer
      offer-Kept [] some_room k =
          let room : ltb 0 limit ≡ true = ground arith in rw room (push-Kept [] k some_room)
      offer-Kept (root ∷ t) some_room k = elim (Bool-cases (ltb (length (root ∷ t)) limit)) [
        | inl room ↦ rw room (push-Kept (root ∷ t) k (ground arith))
        | inr packed ↦ elim (Bool-cases (ext.float_lt root.score item.score)) [
          | inl better ↦
              rw (packed, better) (fix-Kept root t k packed (root-rank root t k ∙ better))
          | inr worse ↦ rw (packed, worse) (skip-Kept root t k packed (root-rank root t k ∙ worse))
        ]
      ]

    Kept-same :
        (limit : ℕ) (seen all h : List VsearchItem)
        → length seen ≡ length all
        → ((p : VsearchItem → Bool) → count p seen ≡ count p all)
        → Kept limit seen h
        → Kept limit all h
    Kept-same limit seen all h size same k = record {
      whole = k.whole;
      left = k.left;
      mark = k.mark;
      size = k.size ∙ ap (λ n. if leb n limit then n else limit) size;
      total = k.total ∙ size;
      same = λ p. k.same p ∙ same p;
      above = k.above;
      below = k.below;
    }

    first_plain :
        (item : VsearchItem) (items seen : List VsearchItem)
        → count is_nan (item ∷ items) ≡ 0
        → count is_nan seen ≡ 0
        → count is_nan (item ∷ seen) ≡ 0
    unfolding count
    first_plain item items seen plain seen_plain = ground (arith, plain, seen_plain)

    later_plain :
        (item : VsearchItem) (items : List VsearchItem)
        → count is_nan (item ∷ items) ≡ 0
        → count is_nan items ≡ 0
    unfolding count
    later_plain item items plain = ground (arith, plain)

    offers-Kept :
        (limit : ℕ) (items seen h : List VsearchItem)
        → 0 < limit
        → count is_nan items ≡ 0
        → count is_nan seen ≡ 0
        → Kept limit seen h
        → Kept limit (items ++ seen) (offers limit items h)
    unfolding offers
    offers-Kept limit [] seen h some_room plain seen_plain k = k
    offers-Kept limit (item ∷ items) seen h some_room plain seen_plain k =
        let both : count is_nan (item ∷ seen) ≡ 0 = first_plain item items seen plain seen_plain in
        let rest =
          offers-Kept limit items (item ∷ seen) (offer ext limit item h) some_room
            (later_plain item items plain) both (offer-Kept limit item seen both h some_room k) in
        Kept-same limit (items ++ (item ∷ seen)) (item ∷ (items ++ seen)) _
          (omega (arith, length-append items (item ∷ seen), length-append items seen))
          (λ p.
            unfold count in
            omega (arith, count-append p items (item ∷ seen), count-append p items seen))
          rest

    -- After the whole scan
    pub scan_heap-Kept :
        (query : List ℕ) (pattern : Text) (limit : ℕ) (now : ℤ) (m : Dict Entry)
        → 0 < limit
        → count is_nan (candidates query pattern now m) ≡ 0
        → Kept limit (candidates query pattern now m) (scan_heap ext query pattern limit now m [])
    scan_heap-Kept query pattern limit now m some_room plain =
        let items = candidates query pattern now m in
        rw (scan_heap-offers query pattern limit now m []) (
          Kept-same limit (items ++ []) items _ (omega (arith, length-append items []))
            (λ p. unfold count in omega (arith, count-append p items []))
            (offers-Kept limit items [] [] some_room plain (unfold count in refl) none_seen))
      where
        none_seen : Kept limit [] []
        none_seen = record {
          whole = λ c p q. absurd (omega arith);
          left = [];
          mark = 0;
          size = ground arith;
          total = omega arith;
          same = λ p. unfold count in refl;
          above = unfold count in refl;
          below = unfold count in refl;
        }
