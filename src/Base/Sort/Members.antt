-- ===== src/Base/Sort/Members.antt =====
-- Sorting texts neither adds a text nor loses one.
use mathlib.Core.Path.{◌≡◌, refl}
use mathlib.Core.Bool.{Bool, ◌||◌}
use mathlib.Core.List.{List, [], ◌∷◌}
use native.Mathlib.Omega.{arith}
use torii_db.Base.Texts.{Text, text_eq, is_in}
use torii_db.Base.Sort.{insert_sorted, sort}

is_in-insert_sorted :
    (less : Text → Text → Bool) (k a : Text) (xs : List Text)
    → is_in k (insert_sorted less a xs) ≡ (text_eq a k || is_in k xs)
unfolding insert_sorted
is_in-insert_sorted less k a [] = refl
is_in-insert_sorted less k a (x ∷ xs) = ground (arith, is_in-insert_sorted less k a xs)

pub is_in-sort :
    (less : Text → Text → Bool) (k : Text) (xs : List Text) → is_in k (sort less xs) ≡ is_in k xs
unfolding sort
is_in-sort less k [] = refl
is_in-sort less k (x ∷ xs) =
    ground (arith, is_in-sort less k xs, is_in-insert_sorted less k x (sort less xs))
