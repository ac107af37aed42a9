-- ===== src/Store/Incr.antt =====
-- core/store/incr.go and core/store/incrField.go
use torii_db.Base.{ℤ, Text, Bool, true, false, Option, none, some, List, lookup, if◌then◌else◌}
use torii_db.External.{External}
use torii_db.Json.{Json, Members, Float, num, obj}
use torii_db.Utils.{walk_keys, vtoa_float, vtof}
use torii_db.Store.Entry.{
  ValueType, type_int, type_float, Entry, is_json, set_value, detect_type, parse_and_cache,
}
use torii_db.Store.WalkSet.{walk_set}
use torii_db.Store.Db.{
  Db, Io, Error, Outcome, Result, ok, failed, key_not_found, not_number_type, parse_float_failed,
  not_json_type, not_json_object, unmarshal_failed, field_not_found, field_not_number,
}
use torii_db.Store.Del.{store_parsed, log_entry}

abbrev pub is_number : ValueType → Bool
is_number type_int = true
is_number type_float = true
is_number _ = false

-- A number, or the error of the log write behind it.
unfoldable pub with_number : Float → Outcome → Db × Result Float
with_number f (d, none) = (d, ok f)
with_number f (d, some err) = (d, failed err)

module _ (ext : External) where
  unfoldable pub bump_entry : ℤ → Float → Entry → Entry
  bump_entry now total e =
      let text = vtoa_float ext total in
      record (set_value text e) { type = detect_type ext text; updated_at = some now }

  unfoldable pub add_number : Io → ℤ → Text → Float → Option Float → Entry → Db → Db × Result Float
  add_number io now key delta none e d = (d, failed parse_float_failed)
  add_number io now key delta (some f) e d =
      let total = ext.float_add f delta in
      with_number total (log_entry ext io key (bump_entry now total e, none) d)

  unfoldable pub incr : Io → ℤ → Text → Float → Db → Db × Result Float
  incr io now key delta d = elim (lookup key d.entries) [
    | none ↦ (d, failed (key_not_found key))
    | some e ↦
        if is_number e.type
        then add_number io now key delta (ext.parse_float e.value) e d
        else (d, failed not_number_type)
  ]

  -- The number at a path, and an amount more.
  unfoldable pub raised : Json → List Text → Float → Result Float
  raised v sub_keys delta = elim (walk_keys v sub_keys) [
    | none ↦ failed field_not_found
    | some found ↦ elim (vtof ext found) [
      | none ↦ failed field_not_number
      | some f ↦ ok (ext.float_add f delta)
    ]
  ]

  -- The entry as it is left, and the error or the new number.
  unfoldable pub incr_object :
      ℤ → List Text → Members → Entry → Result Float → (Entry × Option Error) × Float
  incr_object now sub_keys ms e (failed err) = ((e, some err), 0)
  incr_object now sub_keys ms e (ok total) =
      (store_parsed ext now e (walk_set (obj ms) sub_keys (num total)), total)

  unfoldable pub incr_parsed :
      ℤ → List Text → Float → Entry × Option Json → (Entry × Option Error) × Float
  incr_parsed now sub_keys delta (e, some (obj ms)) =
      incr_object now sub_keys ms e (raised (obj ms) sub_keys delta)
  incr_parsed now sub_keys delta (e, some v) = ((e, some not_json_object), 0)
  incr_parsed now sub_keys delta (e, none) = ((e, some unmarshal_failed), 0)

  unfoldable pub incr_field : Io → ℤ → Text → List Text → Float → Db → Db × Result Float
  incr_field io now key sub_keys delta d = elim (lookup key d.entries) [
    | none ↦ (d, failed (key_not_found key))
    | some e ↦
        let (stored, total) = incr_parsed now sub_keys delta (parse_and_cache ext e) in
        if is_json e.type
        then with_number total (log_entry ext io key stored d)
        else (d, failed not_json_type)
  ]
