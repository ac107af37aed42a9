-- ===== src/Filter/Parser/Print.antt =====
-- Filters as words, with parentheses only where the parser of core/store/filter/parser.go needs
-- them: NOT binds more than AND, and AND more than OR.
use torii_db.Base.{
  ℕ, All, is_space, ◌||◌, ◌==◌, Text, codes, text_eq, to_upper, false, List, [], ◌∷◌, ◌++◌,
  is_empty, ltb, if◌then◌else◌, some, ◌≡◌, refl,
}
use torii_db.Filter.Operation.{
  Operator, equal_to, greater_than, greater_than_or_equal_to, less_than, less_than_or_equal_to,
  not_equal_to, like, ato_operation,
}
use torii_db.Filter.Condition.{Filter, Filters, cond, and_, or_, not_, none_left, also}

abbrev pub operator_word : Operator → Text
operator_word equal_to = codes "EQ"
operator_word greater_than = codes "GT"
operator_word greater_than_or_equal_to = codes "GTE"
operator_word less_than = codes "LT"
operator_word less_than_or_equal_to = codes "LTE"
operator_word not_equal_to = codes "NE"
operator_word like = codes "LIKE"

pub ato_operation-operator_word : (op : Operator) → ato_operation (operator_word op) ≡ some op
unfolding ato_operation
ato_operation-operator_word equal_to = refl
ato_operation-operator_word greater_than = refl
ato_operation-operator_word greater_than_or_equal_to = refl
ato_operation-operator_word less_than = refl
ato_operation-operator_word less_than_or_equal_to = refl
ato_operation-operator_word not_equal_to = refl
ato_operation-operator_word like = refl

-- The method that reads a filter without parentheses: 0 `Or`, 1 `And`, 2 `Not`, 3 `Primary`.
abbrev pub level : Filter → ℕ
level (or_ fs) = 0
level (and_ fs) = 1
level (not_ f) = 2
level _ = 3

abbrev pub wrapped : List Text → List Text
wrapped ws = codes "(" ∷ (ws ++ (codes ")" ∷ []))

abbrev pub wrap_below : ℕ → ℕ → List Text → List Text
wrap_below n l ws = if ltb l n then wrapped ws else ws

unfoldable mutual
  pub filter_words : Filter → List Text
  filter_words (cond field op value) = field ∷ operator_word op ∷ value ∷ []
  filter_words (and_ fs) = operand_words (codes "AND") 2 fs
  filter_words (or_ fs) = operand_words (codes "OR") 1 fs
  filter_words (not_ f) = codes "NOT" ∷ wrap_below 2 (level f) (filter_words f)
  filter_words _ = []

  -- The operands, with the keyword between them
  pub operand_words : Text → ℕ → Filters → List Text
  operand_words word n none_left = []
  operand_words word n (also f fs) = wrap_below n (level f) (filter_words f) ++ rest_words word n fs

  pub rest_words : Text → ℕ → Filters → List Text
  rest_words word n none_left = []
  rest_words word n (also f fs) =
      word ∷ (wrap_below n (level f) (filter_words f) ++ rest_words word n fs)

-- Neither white space nor a parenthesis
abbrev pub IsPlain : Text → Type 0
IsPlain s = All (λ c. (is_space c || c == b'(' || c == b')') ≡ false) s

-- A word that can stand for a field: plain, not empty, and not NOT.
pub record IsField (field : Text) : Type 0 where
  pub there : is_empty field ≡ false
  pub no_paren : text_eq field (codes "(") ≡ false
  pub plain : IsPlain field
  pub no_keyword : text_eq (to_upper field) (codes "NOT") ≡ false

abbrev pub HasTwo : Filters → Type 0
HasTwo (also f (also g fs)) = Unit {0}
HasTwo _ = ⊥

-- What the parser can give: conditions, and connectives of two or more operands.
unfoldable mutual
  pub IsPrintable : Filter → Type 0
  IsPrintable (cond field op value) = IsField field × (is_empty value ≡ false) × IsPlain value
  IsPrintable (and_ fs) = HasTwo fs × AllPrintable fs
  IsPrintable (or_ fs) = HasTwo fs × AllPrintable fs
  IsPrintable (not_ f) = IsPrintable f
  IsPrintable _ = ⊥

  pub AllPrintable : Filters → Type 0
  AllPrintable none_left = Unit {0}
  AllPrintable (also f fs) = IsPrintable f × AllPrintable fs
