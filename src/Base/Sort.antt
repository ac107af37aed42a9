-- ===== src/Base/Sort.antt =====
-- Sorting by a strict order, as `sort.Slice` and `sort.Strings` do up to the order of equals.
pub mod Members
use mathlib.Core.Path.{◌≡◌}
use mathlib.Core.Bool.{Bool, true, false}
use mathlib.Core.List.{List, [], ◌∷◌, Perm}
use mathlib.Core.List.Perm
use torii_db.Base.Tests.{if◌then◌else◌, Bool-cases}
use mathlib.Core.Logic.{inl, inr}

module _ {ℓ} {A : Type ℓ} (less : A → A → Bool) where
  unfoldable pub insert_sorted : A → List A → List A
  insert_sorted a [] = a ∷ []
  insert_sorted a (x ∷ xs) = if less x a then x ∷ insert_sorted a xs else a ∷ x ∷ xs

  unfoldable pub sort : List A → List A
  unfolding insert_sorted
  sort [] = []
  sort (x ∷ xs) = insert_sorted x (sort xs)

  -- No element comes before one that is smaller.
  abbrev pub IsBelow : A → List A → Type 0
  IsBelow a [] = Unit {0}
  IsBelow a (x ∷ xs) = (less x a ≡ false) × IsBelow a xs

  abbrev pub IsSorted : List A → Type 0
  IsSorted [] = Unit {0}
  IsSorted (x ∷ xs) = IsBelow x xs × IsSorted xs

  insert_sorted-perm : (a : A) (xs : List A) → Perm (insert_sorted a xs) (a ∷ xs)
  unfolding insert_sorted
  insert_sorted-perm a [] = Perm.refl _
  insert_sorted-perm a (x ∷ xs) = elim (Bool-cases (less x a)) [
    | inl e ↦ rw e (Perm.trans (Perm.cons x (insert_sorted-perm a xs)) (Perm.swap a x xs))
    | inr e ↦ rw e (Perm.refl _)
  ]

  pub sort-perm : (xs : List A) → Perm (sort xs) xs
  unfolding sort
  sort-perm [] = Perm.refl _
  sort-perm (x ∷ xs) = Perm.trans (insert_sorted-perm x (sort xs)) (Perm.cons x (sort-perm xs))

  module _ (asym : (a b : A) → less a b ≡ true → less b a ≡ false)
      (trans : (a b c : A) → less b a ≡ false → less c b ≡ false → less c a ≡ false) where
    IsBelow-trans : (a b : A) (xs : List A) → less b a ≡ false → IsBelow b xs → IsBelow a xs
    IsBelow-trans a b [] h k = tt
    IsBelow-trans a b (x ∷ xs) h (k, ks) = (trans a b x h k, IsBelow-trans a b xs h ks)

    insert_sorted-IsBelow :
        (a b : A) (xs : List A) → less b a ≡ false → IsBelow a xs → IsBelow a (insert_sorted b xs)
    unfolding insert_sorted
    insert_sorted-IsBelow a b [] h k = (h, tt)
    insert_sorted-IsBelow a b (x ∷ xs) h (k, ks) = elim (Bool-cases (less x b)) [
      | inl e ↦ rw e (k, insert_sorted-IsBelow a b xs h ks)
      | inr e ↦ rw e (h, (k, ks))
    ]

    insert_sorted-IsSorted : (a : A) (xs : List A) → IsSorted xs → IsSorted (insert_sorted a xs)
    unfolding insert_sorted
    insert_sorted-IsSorted a [] h = (tt, tt)
    insert_sorted-IsSorted a (x ∷ xs) (below, h) = elim (Bool-cases (less x a)) [
      | inl e ↦
          rw e (insert_sorted-IsBelow x a xs (asym x a e) below, insert_sorted-IsSorted a xs h)
      | inr e ↦ rw e ((e, IsBelow-trans a x xs e below), (below, h))
    ]

    pub sort-IsSorted : (xs : List A) → IsSorted (sort xs)
    unfolding sort
    sort-IsSorted [] = tt
    sort-IsSorted (x ∷ xs) = insert_sorted-IsSorted x (sort xs) (sort-IsSorted xs)
