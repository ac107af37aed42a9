-- ===== src/Filter/Condition.antt =====
-- core/store/filter/filter.go and core/store/filter/extension.go: filters and what they match.
use torii_db.Base.{
  Text, split_nonempty, Bool, true, false, not, Option, none, some, if◌then◌else◌, ◌>>=◌,
}
use torii_db.External.{External}
use torii_db.Json.{Json}
use torii_db.Utils.{walk_keys, vtoa}
use torii_db.Filter.Operation.{
  Operator, equal_to, greater_than, greater_than_or_equal_to, less_than, less_than_or_equal_to,
  not_equal_to, like, match_op,
}

-- The types of the package that implement the interface `Filter`.
mutual
  pub data Filter : Type 0 where
    cond : Text → Operator → Text → Filter
    and_ : Filters → Filter
    or_ : Filters → Filter
    not_ : Filter → Filter
    eq ne gt gte ge lt lte le like_ : Text → Text → Filter

  pub data Filters : Type 0 where
    none_left : Filters
    also : Filter → Filters → Filters

module _ (ext : External) where
  unfoldable pub get_value : Text → Json → Option Text
  get_value key v = do found ← walk_keys v (split_nonempty b'.' key); some (vtoa ext found)

  -- `ok && Match(val, op, value)`
  unfoldable pub match_field : Text → Operator → Text → Json → Bool
  match_field field op value v = elim (get_value field v) [
    | none ↦ false
    | some found ↦ match_op ext found op value
  ]

unfoldable mutual
  pub filter_match : External → Filter → Json → Bool
  filter_match ext (cond field op value) v = match_field ext field op value v
  filter_match ext (and_ fs) v = match_all ext fs v
  filter_match ext (or_ fs) v = match_any ext fs v
  filter_match ext (not_ f) v = not (filter_match ext f v)
  filter_match ext (eq field value) v = match_field ext field equal_to value v
  filter_match ext (ne field value) v = match_field ext field not_equal_to value v
  filter_match ext (gt field value) v = match_field ext field greater_than value v
  filter_match ext (gte field value) v = match_field ext field greater_than_or_equal_to value v
  filter_match ext (ge field value) v = match_field ext field greater_than_or_equal_to value v
  filter_match ext (lt field value) v = match_field ext field less_than value v
  filter_match ext (lte field value) v = match_field ext field less_than_or_equal_to value v
  filter_match ext (le field value) v = match_field ext field less_than_or_equal_to value v
  filter_match ext (like_ field value) v = match_field ext field like value v

  -- the loop of `And`
  pub match_all : External → Filters → Json → Bool
  match_all ext none_left v = true
  match_all ext (also f fs) v =
      let rest = match_all ext fs v in if not (filter_match ext f v) then false else rest

  -- the loop of `Or`
  pub match_any : External → Filters → Json → Bool
  match_any ext none_left v = false
  match_any ext (also f fs) v =
      let rest = match_any ext fs v in if filter_match ext f v then true else rest
