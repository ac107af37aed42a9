-- ===== src/Json.antt =====
-- The values of type `any` that `encoding/json` yields and core/utils/utils.go makes: what the
-- program's type switches tell apart. A float64 is kept as its 64 bits, and a `map[string]any` as
-- a chain of members in which `member_set` and `member_erase` keep each key once.
pub mod Laws
use torii_db.Base.{
  ℕ, zero, suc, ℤ, Text, text_eq, Bool, true, false, Option, none, some, if◌then◌else◌, ◌≡◌,
}

-- The bits of a float64.
abbrev pub Float : Type 0
Float = ℕ

mutual
  pub data Json : Type 0 where
    null : Json
    bool : Bool → Json
    num : Float → Json
    int : ℤ → Json
    str : Text → Json
    arr : Items → Json
    obj : Members → Json

  pub data Items : Type 0 where
    nil : Items
    cons : Json → Items → Items

  pub data Members : Type 0 where
    end : Members
    member : Text → Json → Members → Members

unfoldable pub item_count : Items → ℕ
item_count nil = 0
item_count (cons v xs) = suc (item_count xs)

unfoldable pub item_get : Items → ℕ → Option Json
item_get nil i = none
item_get (cons v xs) zero = some v
item_get (cons v xs) (suc i) = item_get xs i

unfoldable pub item_set : Items → ℕ → Json → Items
item_set nil i v = nil
item_set (cons w xs) zero v = cons v xs
item_set (cons w xs) (suc i) v = cons w (item_set xs i v)

unfoldable pub member_get : Text → Members → Option Json
unfolding text_eq
member_get k end = none
member_get k (member j v ms) = if text_eq j k then some v else member_get k ms

unfoldable pub member_set : Text → Json → Members → Members
unfolding text_eq
member_set k v end = member k v end
member_set k v (member j w ms) =
    if text_eq j k then member k v ms else member j w (member_set k v ms)

unfoldable pub member_erase : Text → Members → Members
unfolding text_eq
member_erase k end = end
member_erase k (member j v ms) =
    let rest = member_erase k ms in if text_eq j k then rest else member j v rest

abbrev pub is_container : Json → Bool
is_container (arr xs) = true
is_container (obj ms) = true
is_container _ = false
