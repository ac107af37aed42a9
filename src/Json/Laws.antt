-- ===== src/Json/Laws.antt =====
-- Reading back what was written into an array or a map.
use torii_db.Base.{
  ℕ, zero, suc, ◌<◌, Text, text_eq, text_eq_iff, none, some, if◌then◌else◌, ◌≡◌, refl, ap, arith,
}
use torii_db.Json.{
  Json, Items, Members, nil, cons, end, member, item_count, item_get, item_set, member_get,
  member_set, member_erase,
}

pub item_get-item_set_self :
    (xs : Items) (i : ℕ) (v w : Json)
    → item_get xs i ≡ some w
    → item_get (item_set xs i v) i ≡ some v
unfolding item_get item_set
item_get-item_set_self nil i v w h = cc
item_get-item_set_self (cons x xs) zero v w h = refl
item_get-item_set_self (cons x xs) (suc i) v w h = item_get-item_set_self xs i v w h

pub item_set_same : (xs : Items) (i : ℕ) (v : Json) → item_get xs i ≡ some v → item_set xs i v ≡ xs
unfolding item_get item_set
item_set_same nil i v h = refl
item_set_same (cons x xs) zero v h = cc
item_set_same (cons x xs) (suc i) v h = ap (cons x) (item_set_same xs i v h)

pub item_count-item_set :
    (xs : Items) (i : ℕ) (v : Json) → item_count (item_set xs i v) ≡ item_count xs
unfolding item_count item_set
item_count-item_set nil i v = refl
item_count-item_set (cons x xs) zero v = refl
item_count-item_set (cons x xs) (suc i) v = ap suc (item_count-item_set xs i v)

pub item_get_of_lt :
    (xs : Items) (i : ℕ) → i < item_count xs → (v : Json) × (item_get xs i ≡ some v)
unfolding item_get item_count
item_get_of_lt nil i h = elim h [ ]
item_get_of_lt (cons x xs) zero h = (x, refl)
item_get_of_lt (cons x xs) (suc i) h = item_get_of_lt xs i (omega arith)

pub member_get-member_set :
    (k j : Text) (v : Json) (ms : Members)
    → member_get j (member_set k v ms) ≡ (if text_eq k j then some v else member_get j ms)
unfolding member_get member_set
member_get-member_set k j v end = refl
member_get-member_set k j v (member i w ms) =
    ground
      (arith, member_get-member_set k j v ms, text_eq_iff k j, text_eq_iff i k, text_eq_iff i j)

pub member_get-member_erase :
    (k j : Text) (ms : Members)
    → member_get j (member_erase k ms) ≡ (if text_eq k j then none else member_get j ms)
unfolding member_get member_erase
member_get-member_erase k j end = ground arith
member_get-member_erase k j (member i w ms) =
    ground
      (arith, member_get-member_erase k j ms, text_eq_iff k j, text_eq_iff i k, text_eq_iff i j)

pub member_set_same :
    (k : Text) (v : Json) (ms : Members) → member_get k ms ≡ some v → member_set k v ms ≡ ms
unfolding member_get member_set
member_set_same k v end h = cc
member_set_same k v (member j w ms) h = ground (arith, member_set_same k v ms, text_eq_iff j k)
