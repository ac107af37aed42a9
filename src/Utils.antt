-- ===== src/Utils.antt =====
-- core/utils/utils.go: paths into a JSON value, and conversions between texts and values.
pub mod Walk
use torii_db.Base.{
  ℕ, ℤ, pos, negsuc, Text, codes, text_eq, has_prefix, has_suffix, trim_space, Bool, true, false,
  ◌&&◌, ◌||◌, Option, none, some, List, [], ◌∷◌, if◌then◌else◌, ltb, ◌>>=◌, ◌<◌, ◌≡◌, arith,
}
use torii_db.Base.Number.{parse_int, format_int}
use torii_db.Json.{
  Json, Items, Members, Float, null, bool, num, int, str, arr, obj, item_count, item_get,
  member_get,
}
use torii_db.External.{External}

-- `idx, err := strconv.Atoi(key)`, and the test `idx < 0 || idx >= len`.
unfoldable pub index_of : Text → ℕ → Option ℕ
unfolding parse_int
index_of key len = do
  idx ← parse_int key
  elim idx [ pos i ↦ (if ltb i len then some i else none) | negsuc i ↦ none ]

pub index_of-lt : (key : Text) (len i : ℕ) → index_of key len ≡ some i → i < len
unfolding index_of
index_of-lt key len i h = ground arith

-- One round of the loop of `WalkKeys`.
unfoldable pub child : Json → Text → Option Json
child (obj ms) key = member_get key ms
child (arr xs) key = index_of key (item_count xs) >>= item_get xs
child _ key = none

unfoldable pub walk_keys : Json → List Text → Option Json
walk_keys current [] = some current
walk_keys current (key ∷ keys) = do sub ← child current key; walk_keys sub keys

abbrev pub wrapped : Text → Text → Text → Bool
wrapped open_with close_with s = has_prefix s open_with && has_suffix s close_with

-- A text in braces, or in brackets.
abbrev pub is_braced : Text → Bool
is_braced s = wrapped (codes "{") (codes "}") s || wrapped (codes "[") (codes "]") s

module _ (ext : External) where
  -- The part of `Atov` behind the numbers.
  atov_json : Text → Json
  unfolding trim_space has_prefix has_suffix
  atov_json text =
      let trimmed = trim_space text in
      if is_braced trimmed
      then elim (ext.json_unmarshal trimmed) [ some v ↦ v | none ↦ str text ]
      else str text

  atov_number : Text → Json
  unfolding atov_json parse_int
  atov_number text = elim (parse_int text) [
    | some i ↦ int i
    | none ↦ elim (ext.parse_float text) [ some f ↦ num f | none ↦ atov_json text ]
  ]

  unfoldable pub atov : Text → Json
  unfolding atov_number text_eq
  atov text =
      if text_eq text (codes "null")
      then null
      else if text_eq text (codes "true")
      then bool true
      else if text_eq text (codes "false")
      then bool false
      else atov_number text

  abbrev pub marshal_or_sprint : Json → Text
  marshal_or_sprint v = elim (ext.json_marshal v) [ some raw ↦ raw | none ↦ ext.sprint v ]

  -- A float64 that is a whole number is shown without a point.
  unfoldable pub vtoa_float : Float → Text
  unfolding format_int
  vtoa_float val =
      if ext.float_eq val (ext.float_of_int (ext.int_of_float val))
      then format_int (ext.int_of_float val)
      else ext.format_float val

  unfoldable pub vtoa : Json → Text
  unfolding vtoa_float format_int
  vtoa null = codes "(nil)"
  vtoa (str s) = s
  vtoa (num f) = vtoa_float f
  vtoa (bool true) = codes "true"
  vtoa (bool false) = codes "false"
  vtoa (obj ms) = marshal_or_sprint (obj ms)
  vtoa (arr xs) = marshal_or_sprint (arr xs)
  vtoa (int i) = format_int i

  unfoldable pub vtof : Json → Option Float
  vtof (num f) = some f
  vtof (int i) = some (ext.float_of_int i)
  vtof _ = none
