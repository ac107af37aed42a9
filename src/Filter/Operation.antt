-- ===== src/Filter/Operation.antt =====
-- core/store/filter/operation.go
use torii_db.Base.{
  Text, codes, text_eq, to_upper, has_prefix, has_suffix, contains, trim, Bool, true, false, ◌||◌,
  ◌&&◌, not, Option, none, some, List, [], ◌∷◌, is_empty, ◌==◌, if◌then◌else◌, ◌>>=◌,
}
use torii_db.External.{External}
use torii_db.Json.{Float}

pub data Operator : Type 0 where
  equal_to greater_than greater_than_or_equal_to less_than less_than_or_equal_to : Operator
  not_equal_to like : Operator

abbrev one_of : Text → List Text → Bool
one_of s [] = false
one_of s (t ∷ ts) = text_eq s t || one_of s ts

operator_of : Text → Option Operator
operator_of s =
    if one_of s (codes "EQ" ∷ codes "=" ∷ [])
    then some equal_to
    else if one_of s (codes "GT" ∷ codes ">" ∷ [])
    then some greater_than
    else if one_of s (codes "GTE" ∷ codes "GE" ∷ codes ">=" ∷ [])
    then some greater_than_or_equal_to
    else if one_of s (codes "LT" ∷ codes "<" ∷ [])
    then some less_than
    else if one_of s (codes "LTE" ∷ codes "LE" ∷ codes "<=" ∷ [])
    then some less_than_or_equal_to
    else if one_of s (codes "NE" ∷ codes "!=" ∷ [])
    then some not_equal_to
    else if one_of s (codes "LIKE" ∷ [])
    then some like
    else none

unfoldable pub ato_operation : Text → Option Operator
unfolding operator_of to_upper text_eq
ato_operation s = operator_of (to_upper s)

unfoldable pub match_text : Text → Text → Bool
match_text stored pattern =
    let prefix = has_prefix pattern (codes "*") in
    let suffix = has_suffix pattern (codes "*") in
    let core = trim (λ c. c == b'*') pattern in
    if is_empty core
    then true
    else if prefix && suffix
    then contains stored core
    else if prefix
    then has_suffix stored core
    else if suffix
    then has_prefix stored core
    else contains stored core

module _ (ext : External) where
  unfoldable pub parse_num : Text → Text → Option (Float × Float)
  parse_num a b = do av ← ext.parse_float a; bv ← ext.parse_float b; some (av, bv)

  compare_nums : (Float → Float → Bool) → Option (Float × Float) → Bool
  compare_nums test none = false
  compare_nums test (some (sv, tv)) = test sv tv

  unfoldable pub match_op : Text → Operator → Text → Bool
  unfolding compare_nums parse_num text_eq
  match_op stored equal_to target = text_eq stored target
  match_op stored greater_than target =
      compare_nums (λ a b. ext.float_lt b a) (parse_num stored target)
  match_op stored greater_than_or_equal_to target =
      compare_nums (λ a b. ext.float_le b a) (parse_num stored target)
  match_op stored less_than target = compare_nums ext.float_lt (parse_num stored target)
  match_op stored less_than_or_equal_to target = compare_nums ext.float_le (parse_num stored target)
  match_op stored not_equal_to target = not (text_eq stored target)
  match_op stored like target = match_text stored target
