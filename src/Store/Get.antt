-- ===== src/Store/Get.antt =====
-- core/store/get.go, and `VGet` of core/store/vsim.go, which reads through `Get`.
use torii_db.Base.{
  ℕ, ℤ, Text, codes, Option, none, some, List, [], ◌∷◌, lookup, erase, if◌then◌else◌, ◌>>=◌,
}
use torii_db.External.{External}
use torii_db.Utils.{walk_keys, vtoa}
use torii_db.Store.Entry.{Entry, is_expired, cached, detect_type, type_name}
use torii_db.Store.Db.{Db}

-- An expired entry is dropped from memory, and the drop is not logged.
unfoldable pub read_entry : ℤ → Text → Option Entry → Db → Db × Option Entry
read_entry now key none d = (d, none)
read_entry now key (some e) d =
    if is_expired e now then (record d { entries = erase key d.entries }, none) else (d, some e)

-- `Get`, run with no other writer between its two critical sections.
unfoldable pub get : ℤ → Text → Db → Db × Option Entry
get now key d = read_entry now key (lookup key d.entries) d

unfoldable pub get_field : External → ℤ → Text → List Text → Db → Option Text
get_field ext now key sub_keys d = do
  e ← lookup key d.entries
  live ← (if is_expired e now then none else some e)
  v ← cached live
  found ← walk_keys v sub_keys
  some (vtoa ext found)

abbrev integer_0 : Text
integer_0 = codes "(integer) 0"

abbrev integer_1 : Text
integer_1 = codes "(integer) 1"

unfoldable pub exist : ℤ → Text → Db → Db × Text
exist now key d =
    let (after, found) = get now key d in
    (after, elim found [ none ↦ integer_0 | some e ↦ integer_1 ])

unfoldable pub exist_field : External → ℤ → Text → List Text → Db → Text
exist_field ext now key sub_keys d = elim (get_field ext now key sub_keys d) [
  | none ↦ integer_0
  | some v ↦ integer_1
]

unfoldable pub type_of : ℤ → Text → Db → Db × Text
type_of now key d =
    let (after, found) = get now key d in
    (after, elim found [ none ↦ codes "(nil)" | some e ↦ type_name e.type ])

unfoldable pub type_field : External → ℤ → Text → List Text → Db → Text
type_field ext now key sub_keys d = elim (get_field ext now key sub_keys d) [
  | none ↦ codes "(nil)"
  | some v ↦ type_name (detect_type ext v)
]

unfoldable pub vget : ℤ → Text → Db → Db × Option (List ℕ)
vget now key d =
    let (after, found) = get now key d in
    (after, found >>= λ e. elim e.vector [ [] ↦ none | v ∷ vec ↦ some (v ∷ vec) ])
