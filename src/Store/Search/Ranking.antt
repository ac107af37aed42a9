-- ===== src/Store/Search/Ranking.antt =====
-- What a search gives: `scanTopK` of core/store/vsearch.go, the heap emptied into the result.
use mathlib.Core.List.{append-nil}
use torii_db.Base.{
  ℕ, zero, suc, ℤ, ◌+◌, ◌<◌, Bool, Text, Option, none, some, List, [], ◌∷◌, ◌++◌, length,
  length-append, map, ltb, leb, if◌then◌else◌, ◌≡◌, refl, sym, ap, ◌∙◌, arith,
}
use torii_db.External.{External}
use torii_db.Store.Db.{Db}
use torii_db.Store.Heap.{pop}
use torii_db.Store.Heap.Slots.{count, count-append}
use torii_db.Store.Heap.Order.{by_key}
use torii_db.Store.Heap.Laws.{IsWhole, IsAbove, Popped, pop-Popped}
use torii_db.Store.Heap.Agree.{pop-agree}
use torii_db.Store.Search.{VsearchItem, item_less, drain, scan_heap, scan_top_k}
use torii_db.Store.Search.Best.{
  ScoreOrder, candidates, is_nan, rank_of, item_less-rank, scan_heap-Kept,
}

module _ (ext : External) (order : ScoreOrder ext) where
  -- No score is over one before it.
  unfoldable pub IsDescending : List VsearchItem → Type 0
  IsDescending [] = Unit
  IsDescending (x ∷ xs) =
      (count (λ y. ltb (rank_of ext order x) (rank_of ext order y)) xs ≡ 0) × IsDescending xs

  IsDescending-snoc :
      (xs : List VsearchItem) (x : VsearchItem)
      → IsDescending xs
      → IsAbove (rank_of ext order) (rank_of ext order x) xs
      → IsDescending (xs ++ (x ∷ []))
  unfolding IsDescending count
  IsDescending-snoc [] x d above = (refl, tt)
  IsDescending-snoc (y ∷ xs) x (first, later) above = (
    ground (
      arith,
      above,
      first,
      count-append (λ z. ltb (rank_of ext order y) (rank_of ext order z)) xs (x ∷ []),
    ),
    IsDescending-snoc xs x later (ground (arith, above)),
  )

  abbrev pub keys : List VsearchItem → List Text
  keys xs = map (λ (item : VsearchItem). item.key) xs

  keys-snoc :
      (xs : List VsearchItem) (x : VsearchItem) (out : List Text)
      → keys (xs ++ (x ∷ [])) ++ out ≡ keys xs ++ (x.key ∷ out)
  keys-snoc [] x out = refl
  keys-snoc (y ∷ xs) x out = ap (λ (r : List Text). y.key ∷ r) (keys-snoc xs x out)

  -- The elements of a heap, from the highest score to the lowest
  pub record Ranked (h : List VsearchItem) (out result : List Text) : Type 0 where
    pub items : List VsearchItem
    pub result_is : result ≡ keys items ++ out
    pub descending : IsDescending items
    pub size : length items ≡ length h
    pub same : (p : VsearchItem → Bool) → count p items ≡ count p h

  snoc-count :
      (h : List VsearchItem) (r : Option VsearchItem × List VsearchItem)
      (popped : Popped (rank_of ext order) h r) (items : List VsearchItem)
      → ((p : VsearchItem → Bool) → count p items ≡ count p r.1)
      → (p : VsearchItem → Bool) → count p (items ++ (popped.root ∷ [])) ≡ count p h
  unfolding count
  snoc-count h r popped items same p =
      omega (arith, count-append p items (popped.root ∷ []), same p, popped.same p)

  -- One more element behind those of the rest
  snoc-Ranked :
      (h : List VsearchItem) (r : Option VsearchItem × List VsearchItem) (out result : List Text)
      (popped : Popped (rank_of ext order) h r)
      → Ranked r.1 (popped.root.key ∷ out) result
      → Ranked h out result
  snoc-Ranked h r out result popped rest =
      let all = snoc-count h r popped rest.items rest.same in
      record {
        items = rest.items ++ (popped.root ∷ []);
        result_is = rest.result_is ∙ sym (keys-snoc rest.items popped.root out);
        descending = IsDescending-snoc rest.items popped.root rest.descending (
            omega (
              arith,
              rest.same (λ x. ltb (rank_of ext order x) (rank_of ext order popped.root)),
              popped.same (λ x. ltb (rank_of ext order x) (rank_of ext order popped.root)),
              popped.lowest,
            ));
        size = omega (arith, length-append rest.items (popped.root ∷ []), rest.size, popped.size);
        same = all;
      }

  drain-next :
      (n : ℕ) (h : List VsearchItem) (out : List Text) (root : VsearchItem)
      (rest : List VsearchItem)
      → pop (item_less ext) h ≡ (some root, rest)
      → drain ext (suc n) h out ≡ drain ext n rest (root.key ∷ out)
  unfolding drain
  drain-next n h out root rest e =
      ap
        (λ (r : Option VsearchItem × List VsearchItem). elim r.0 [
          | none ↦ out
          | some item ↦ drain ext n r.1 (item.key ∷ out)
        ])
        e

  drain-Ranked :
      (n : ℕ) (h : List VsearchItem) (out : List Text)
      → length h ≡ n
      → IsWhole (rank_of ext order) h
      → count (is_nan ext) h ≡ 0
      → Ranked h out (drain ext n h out)
  unfolding drain
  drain-Ranked zero [] out size heap plain = record {
    items = [];
    result_is = refl;
    descending = unfold IsDescending in tt;
    size = refl;
    same = λ p. refl;
  }
  drain-Ranked zero (x ∷ h) out size heap plain = absurd (omega arith)
  drain-Ranked (suc n) [] out size heap plain = absurd (omega arith)
  drain-Ranked (suc n) (x ∷ h) out size heap plain =
      let popped = pop-Popped (rank_of ext order) x h heap in
      let fewer : count (is_nan ext) (pop (by_key (rank_of ext order)) (x ∷ h)).1 ≡ 0 =
        omega (arith, popped.same (is_nan ext), plain) in
      let left = (pop (by_key (rank_of ext order)) (x ∷ h)).1 in
      let next : pop (item_less ext) (x ∷ h) ≡ (some popped.root, left) =
        pop-agree (item_less ext) (by_key (rank_of ext order)) (is_nan ext)
          (item_less-rank ext order) (x ∷ h) plain
        ∙ ap (λ (o : Option VsearchItem). (o, left)) popped.given in
      rw (drain-next n (x ∷ h) out popped.root left next) (
        snoc-Ranked (x ∷ h) _ out _ popped (
          drain-Ranked n (pop (by_key (rank_of ext order)) (x ∷ h)).1 (popped.root.key ∷ out)
            (omega (arith, popped.size, size)) popped.rest fewer))

  -- The best of the candidates in their order: those left out are no better.
  pub record TopK (limit : ℕ) (seen : List VsearchItem) (result : List Text) : Type 0 where
    pub items : List VsearchItem
    pub left : List VsearchItem
    pub mark : ℕ
    pub result_is : result ≡ keys items
    pub descending : IsDescending items
    pub size : length items ≡ (if leb (length seen) limit then length seen else limit)
    pub same : (p : VsearchItem → Bool) → count p items + count p left ≡ count p seen
    pub above : IsAbove (rank_of ext order) mark items
    pub below : count (λ x. ltb mark (rank_of ext order x)) left ≡ 0

  -- A search gives the keys of the best candidates in descending order of their scores: as many as
  -- the limit allows, each entry that takes part being either given or left out, and none of those
  -- left out having a higher score than one that is given, if the limit is positive, no score is
  -- NaN and the comparison of the other floats is a linear order.
  pub scan_top_k-TopK :
      (query : List ℕ) (pattern : Text) (limit : ℕ) (now : ℤ) (d : Db)
      → 0 < limit
      → count (is_nan ext) (candidates ext query pattern now d.entries) ≡ 0
      → TopK limit
          (candidates ext query pattern now d.entries)
          (scan_top_k ext query pattern limit now d)
  unfolding scan_top_k
  scan_top_k-TopK query pattern limit now d some_room plain =
      let h = scan_heap ext query pattern limit now d.entries [] in
      let k = scan_heap-Kept ext order query pattern limit now d.entries some_room plain in
      let r =
        drain-Ranked (length h) h [] refl k.whole (omega (arith, k.same (is_nan ext), plain)) in
      record {
        items = r.items;
        left = k.left;
        mark = k.mark;
        result_is = r.result_is ∙ append-nil (keys r.items);
        descending = r.descending;
        size = r.size ∙ k.size;
        same = λ p. omega (arith, r.same p, k.same p);
        above = r.same _ ∙ k.above;
        below = k.below;
      }
