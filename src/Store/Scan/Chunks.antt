-- ===== src/Store/Scan/Chunks.antt =====
-- Scanning in chunks finds what one scan finds.
use torii_db.Base.{
  ℕ, zero, suc, ◌*◌, ◌≤◌, ℤ, Text, Dict, List, [], ◌∷◌, ◌++◌, Option, length, take, drop, leb, ◌≡◌,
  refl, sym, ap, ◌∙◌, arith, length-drop, Bool-cases, inl, inr,
}
use torii_db.Store.Entry.{Entry}
use torii_db.Store.Scan.{SortItem, slice_block, scan_chunks, slice_scan, scan_keys}

abbrev IsAdditive : (List Text → List SortItem) → Type 0
IsAdditive scan = (a b : List Text) → scan (a ++ b) ≡ scan a ++ scan b

take-append-drop : (n : ℕ) (xs : List Text) → take n xs ++ drop n xs ≡ xs
take-append-drop zero xs = refl
take-append-drop (suc n) [] = refl
take-append-drop (suc n) (x ∷ xs) = ap (λ r. x ∷ r) (take-append-drop n xs)

scan_keys-IsAdditive :
    (now : ℤ) (m : Dict Entry) (item : Text → Entry → Option SortItem)
    → IsAdditive (scan_keys now m item)
unfolding scan_keys
scan_keys-IsAdditive now m item [] b = refl
scan_keys-IsAdditive now m item (k ∷ ks) b = ground (arith, scan_keys-IsAdditive now m item ks b)

scan_chunks-eq :
    (scan : List Text → List SortItem) (chunks : ℕ) (ks : List Text)
    → IsAdditive scan
    → scan [] ≡ []
    → length ks ≤ chunks * slice_block
    → scan_chunks scan chunks ks ≡ scan ks
unfolding scan_chunks
scan_chunks-eq scan zero [] add e h = sym e
scan_chunks-eq scan zero (k ∷ ks) add e h = absurd (omega arith)
scan_chunks-eq scan (suc chunks) ks add e h =
    ap (λ r. scan (take slice_block ks) ++ r)
      (scan_chunks-eq scan chunks (drop slice_block ks) add e
        (omega (arith, length-drop slice_block ks)))
    ∙ (sym (add (take slice_block ks) (drop slice_block ks))
        ∙ ap scan (take-append-drop slice_block ks))

-- Scanning the keys in chunks and joining the results in order gives what one scan of all keys
-- gives, for any test of an entry and any number of keys.
pub slice_scan-eq :
    (now : ℤ) (m : Dict Entry) (item : Text → Entry → Option SortItem) (ks : List Text)
    → slice_scan (scan_keys now m item) ks ≡ scan_keys now m item ks
unfolding slice_scan
slice_scan-eq now m item ks = elim (Bool-cases (leb (length ks) slice_block)) [
  | inl e ↦ rw e
  | inr e ↦ rw e (
      scan_chunks-eq _ _ ks (scan_keys-IsAdditive now m item) (unfold scan_keys in refl)
        (omega arith))
]
