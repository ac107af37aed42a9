-- ===== src/Daemon/Pages/Laws.antt =====
-- The pages of `handleKeys`.
use torii_db.Base.{
  ℕ, zero, suc, ◌+◌, ◌-◌, ◌*◌, ◌^◌, ◌≤◌, ◌<◌, ℤ, pos, negsuc, ◌+ℤ◌, wrap64, Text, some, List, [],
  ◌∷◌, ◌++◌, length, take, drop, length-drop, min, ◌≡◌, refl, arith, ap, ◌∙◌, sym,
}
use torii_db.Daemon.Protocol.{empty_response}
use torii_db.Daemon.Pages.{Reply, answered, crashed, slice, page_of, page_bounds, page_reply}

-- The part of a list that a page shows.
unfoldable pub page_part : ℕ → ℕ → List Text → List Text
page_part limit page found = take limit (drop ((page - 1) * limit) found)

page_bounds-in_range :
    (limit page total : ℕ)
    → (page - 1) * limit + limit < 2 ^ 63
    → total + limit < 2 ^ 63
    → page_bounds limit page total ≡ (
      pos (min ((page - 1) * limit) total),
      pos (min (min ((page - 1) * limit) total + limit) total),
    )
unfolding page_bounds wrap64 ◌+ℤ◌
page_bounds-in_range limit page total h k = ground arith

slice_in_range :
    (found : List Text) (from to : ℕ)
    → from ≤ to
    → to ≤ length found
    → slice found (pos from) (pos to) ≡ some (take (to - from) (drop from found))
unfolding slice
slice_in_range found from to h k = ground arith

take_of_length : (n : ℕ) (xs : List Text) → take (min n (length xs)) xs ≡ take n xs
take_of_length zero xs =
    let e : min zero (length xs) ≡ zero = omega arith in ap (λ (k : ℕ). take k xs) e
take_of_length (suc n) [] =
    let e : min (suc n) zero ≡ zero = omega arith in ap (λ (k : ℕ). take {A = Text} k []) e
take_of_length (suc n) (x ∷ xs) =
    let e : min (suc n) (suc (length xs)) ≡ suc (min n (length xs)) = omega arith in
    ap (λ (k : ℕ). take k (x ∷ xs)) e ∙ ap (λ r. x ∷ r) (take_of_length n xs)

drop_of_length : (n : ℕ) (xs : List Text) → drop (min n (length xs)) xs ≡ drop n xs
drop_of_length zero xs =
    let e : min zero (length xs) ≡ zero = omega arith in ap (λ (k : ℕ). drop k xs) e
drop_of_length (suc n) [] =
    let e : min (suc n) zero ≡ zero = omega arith in ap (λ (k : ℕ). drop {A = Text} k []) e
drop_of_length (suc n) (x ∷ xs) =
    let e : min (suc n) (suc (length xs)) ≡ suc (min n (length xs)) = omega arith in
    ap (λ (k : ℕ). drop k (x ∷ xs)) e ∙ drop_of_length n xs

-- A slice that is cut at the end of the list.
slice_at_end :
    (from limit : ℕ) (xs : List Text)
    → take
        (min (min from (length xs) + limit) (length xs) - min from (length xs))
        (drop (min from (length xs)) xs)
      ≡ take limit (drop from xs)
slice_at_end from limit xs =
    let few : min (min from (length xs) + limit) (length xs) - min from (length xs)
        ≡ min limit (length (drop from xs)) =
      omega (arith, length-drop from xs) in
    ap
      (λ (r : List Text).
        take (min (min from (length xs) + limit) (length xs) - min from (length xs)) r)
      (drop_of_length from xs)
    ∙ (ap (λ (k : ℕ). take k (drop from xs)) few ∙ take_of_length limit (drop from xs))

-- The reply that lists a part of the keys.
abbrev pub paged_reply : ℤ → ℤ → ℤ → ℕ → List Text → Reply
paged_reply db limit page total part = answered (record empty_response {
  list = some (record { db = db; page = page; limit = limit; total = total; keys = part });
})

page_reply-in_range :
    (db : ℤ) (n p : ℕ) (found : List Text)
    → p * suc n + suc n < 2 ^ 63
    → length found + suc n < 2 ^ 63
    → page_reply db (pos (suc n)) (pos (suc p)) found
      ≡ paged_reply db (pos (suc n)) (pos (suc p)) (length found) (page_part (suc n) (suc p) found)
unfolding page_reply page_of page_part
page_reply-in_range db n p found h k =
    let e : suc p - 1 ≡ p = omega arith in
    let from : ℕ = min ((suc p - 1) * suc n) (length found) in
    let to : ℕ = min (from + suc n) (length found) in
    rw (page_bounds-in_range (suc n) (suc p) (length found) (rw e h) k) (
      rw (slice_in_range found from to (omega arith) (omega arith))
        (rw (slice_at_end ((suc p - 1) * suc n) (suc n) found) refl))

-- The first pages, one behind the other.
abbrev pub pages : ℕ → ℕ → List Text → List Text
pages limit zero found = []
pages limit (suc p) found = pages limit p found ++ page_part limit (suc p) found

take-nil : (n : ℕ) → take {A = Text} n [] ≡ []
take-nil zero = refl
take-nil (suc n) = refl

take-add : (m n : ℕ) (xs : List Text) → take m xs ++ take n (drop m xs) ≡ take (m + n) xs
take-add zero n xs = let e : n ≡ zero + n = omega arith in ap (λ (k : ℕ). take k xs) e
take-add (suc m) n [] = take-nil n ∙ sym (take-nil (suc m + n))
take-add (suc m) n (x ∷ xs) =
    let e : suc m + n ≡ suc (m + n) = omega arith in
    ap (λ r. x ∷ r) (take-add m n xs) ∙ ap (λ (k : ℕ). take k (x ∷ xs)) (sym e)

pages-take : (limit p : ℕ) (found : List Text) → pages limit p found ≡ take (p * limit) found
unfolding page_part
pages-take limit zero found =
    let e : zero ≡ zero * limit = omega arith in ap (λ (k : ℕ). take k found) e
pages-take limit (suc p) found =
    let e : suc p - 1 ≡ p = omega arith in
    let next : suc p * limit ≡ p * limit + limit = grind arith in
    rw (e, pages-take limit p found)
      (take-add (p * limit) limit found ∙ ap (λ (k : ℕ). take k found) (sym next))

take_all : (n : ℕ) (xs : List Text) → length xs ≤ n → take n xs ≡ xs
take_all n [] h = take-nil n
take_all zero (x ∷ xs) h = absurd (omega arith)
take_all (suc n) (x ∷ xs) h = ap (λ r. x ∷ r) (take_all n xs (omega arith))

-- With a positive limit, each page up to the number of pages lists its part of the keys and the
-- total, without a panic, and the parts one behind the other are all the keys, if that many pages
-- hold the keys and the products stay in the range of int64.
pub page_reply-pages :
    (db : ℤ) (n count : ℕ) (found : List Text)
    → length found ≤ count * suc n
    → count * suc n + suc n < 2 ^ 63
    → ((p : ℕ)
        → p < count
        → page_reply db (pos (suc n)) (pos (suc p)) found
          ≡ paged_reply db
              (pos (suc n))
              (pos (suc p))
              (length found)
              (page_part (suc n) (suc p) found))
      × (pages (suc n) count found ≡ found)
page_reply-pages db n count found h k = (
  λ p lt. page_reply-in_range db n p found (grind arith) (omega arith),
  pages-take (suc n) count found ∙ take_all (count * suc n) found h,
)

-- A page behind the last key with a limit that leaves the range of int64 when it is added to the
-- number of keys panics in the slice expression, if the limit, the number of keys and the start of
-- the page are in that range.
pub page_reply-crashed :
    (db : ℤ) (n p : ℕ) (found : List Text)
    → length found ≤ p * suc n
    → p * suc n < 2 ^ 63
    → suc n < 2 ^ 63
    → length found < 2 ^ 63
    → 2 ^ 63 ≤ length found + suc n
    → page_reply db (pos (suc n)) (pos (suc p)) found ≡ crashed
unfolding page_reply page_of
page_reply-crashed db n p found beyond fits small short over =
    let e : suc p - 1 ≡ p = omega arith in
    let (to, bounds) = past n p (length found) beyond fits small short over in
    rw bounds (unfold slice in refl)
  where
    past :
        (n p total : ℕ)
        → total ≤ p * suc n
        → p * suc n < 2 ^ 63
        → suc n < 2 ^ 63
        → total < 2 ^ 63
        → 2 ^ 63 ≤ total + suc n
        → (to : ℕ) × (page_bounds (suc n) (suc p) total ≡ (pos total, negsuc to))
    past n p total beyond fits small short over =
        let e : suc p - 1 ≡ p = omega arith in
        (2 ^ 64 - (total + suc n) - 1, unfold page_bounds wrap64 ◌+ℤ◌ in rw e (ground arith))
