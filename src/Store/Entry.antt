-- ===== src/Store/Entry.antt =====
-- The entries of a database and the types of their values (`ValueType`, `Entry` and `detectType` of
-- core/store/set.go).
use torii_db.Base.{
  ℕ, ℤ, Text, codes, text_eq, has_prefix, has_suffix, trim_space, Bool, true, false, ◌&&◌, ◌||◌,
  Option, none, some, List, if◌then◌else◌, is_some, leb_ℤ, ◌>>=◌,
}
use torii_db.Base.Number.{parse_int}
use torii_db.Json.{Json}
use torii_db.Utils.{is_braced}
use torii_db.External.{External}

pub data ValueType : Type 0 where
  type_json type_string type_int type_float type_bool type_date : ValueType

unfoldable pub type_name : ValueType → Text
type_name type_json = codes "json"
type_name type_string = codes "string"
type_name type_int = codes "int"
type_name type_float = codes "float"
type_name type_bool = codes "bool"
type_name type_date = codes "date"

-- `value` is the stored text and `parsed` the cache of the value that it stands for; a vector is
-- a list of float32 bits.
pub record Entry : Type 0 where
  pub key : Text
  pub value : Text
  pub type : ValueType
  pub created_at : ℤ
  pub updated_at : Option ℤ
  pub expire_at : Option ℤ
  pub vector : List ℕ
  pub parsed : Option Json

-- The test by which every reader tells an expired entry.
abbrev pub is_past : Option ℤ → ℤ → Bool
is_past none now = false
is_past (some t) now = leb_ℤ t now

unfoldable pub is_expired : Entry → ℤ → Bool
is_expired e now = is_past e.expire_at now

unfoldable pub set_value : Text → Entry → Entry
set_value v e = record e { value = v; parsed = none }

abbrev pub is_json : ValueType → Bool
is_json type_json = true
is_json _ = false

unfoldable pub cached : Entry → Option Json
cached e = if is_json e.type then e.parsed else none

module _ (ext : External) where
  -- The cache is filled, and the parsed value returned.
  fill_cache : Option Json → Entry → Entry × Option Json
  fill_cache (some v) e = (record e { parsed = some v }, some v)
  fill_cache none e = (e, none)

  parse_uncached : Option Json → Entry → Entry × Option Json
  unfolding fill_cache
  parse_uncached (some v) e = (e, some v)
  parse_uncached none e = fill_cache (ext.json_unmarshal e.value) e

  unfoldable pub parse_and_cache : Entry → Entry × Option Json
  unfolding parse_uncached
  parse_and_cache e = if is_json e.type then parse_uncached e.parsed e else (e, none)

  -- `none` if the value cannot be marshalled; the entry is then left as it is.
  unfoldable pub set_parsed : Json → Entry → Option Entry
  set_parsed v e = do raw ← ext.json_marshal v; some (record e { value = raw; parsed = some v })

  unfoldable pub detect_type : Text → ValueType
  unfolding trim_space has_prefix has_suffix parse_int text_eq
  detect_type value =
      if ext.json_valid value && is_braced (trim_space value)
      then type_json
      else if is_some (parse_int value)
      then type_int
      else if is_some (ext.parse_float value)
      then type_float
      else if text_eq value (codes "true") || text_eq value (codes "false")
      then type_bool
      else if ext.is_rfc3339 value || ext.is_date value
      then type_date
      else type_string
