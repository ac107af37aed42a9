-- ===== src/Store/WalkSet.antt =====
-- `walkKeysAndSet` of core/store/setField.go, which writes into a parsed value in place. The model
-- returns the value as the writes leave it, also beside an error.
pub mod Laws
use torii_db.Base.{ℕ, Text, Option, none, some, List, [], ◌∷◌, if◌then◌else◌, ◌>>=◌}
use torii_db.Json.{
  Json, Items, Members, null, arr, obj, end, item_count, item_get, item_set, member_get, member_set,
  member_erase, is_container,
}
use torii_db.Utils.{index_of}

-- `out_of_range` is the panic of Go at an empty path.
pub data WalkError : Type 0 where
  not_json_or_array : WalkError
  invalid_array_index : Text → WalkError
  failed_to_set_field : WalkError
  out_of_range : WalkError

-- A null value deletes a member of a map; an array keeps its length.
unfoldable pub set_last : Json → Text → Json → Json × Option WalkError
set_last (obj ms) last null = (obj (member_erase last ms), none)
set_last (obj ms) last v = (obj (member_set last v ms), none)
set_last (arr xs) last v = elim (index_of last (item_count xs)) [
  | none ↦ (arr xs, some (invalid_array_index last))
  | some i ↦ (arr (item_set xs i v), none)
]
set_last other last v = (other, some failed_to_set_field)

-- The member that the walk goes into was written, so the map holds it anew.
abbrev into_member : Members → Text → Json × Option WalkError → Json × Option WalkError
into_member ms field (v, err) = (obj (member_set field v ms), err)

abbrev into_item : Items → ℕ → Json × Option WalkError → Json × Option WalkError
into_item xs i (v, err) = (arr (item_set xs i v), err)

unfoldable pub walk_set : Json → List Text → Json → Json × Option WalkError
unfolding set_last
walk_set v [] value = (v, some out_of_range)
walk_set v (last ∷ []) value = set_last v last value
walk_set (obj ms) (field ∷ next_field ∷ rest) value = elim (member_get field ms) [
  | none ↦ into_member ms field (walk_set (obj end) (next_field ∷ rest) value)
  | some next ↦
      let deeper = into_member ms field (walk_set next (next_field ∷ rest) value) in
      if is_container next then deeper else (obj ms, some not_json_or_array)
]
walk_set (arr xs) (field ∷ next_field ∷ rest) value = elim (index_of field (item_count xs)) [
  | none ↦ (arr xs, some (invalid_array_index field))
  | some i ↦ elim (item_get xs i) [
    | none ↦ (arr xs, some (invalid_array_index field))
    | some next ↦ into_item xs i (walk_set next (next_field ∷ rest) value)
  ]
]
walk_set other (field ∷ next_field ∷ rest) value = (other, some failed_to_set_field)
