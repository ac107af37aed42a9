-- ===== src/Filter/Parser.antt =====
-- core/store/filter/parser.go, and `AtoFilter` of core/store/filter/filter.go. The four parsing
-- methods call one another, so each call costs a unit of fuel.
pub mod Total
pub mod Print
pub mod Reading
pub mod Levels
pub mod Operands
pub mod RoundTrip
pub mod Split
use torii_db.Base.{
  ℕ, zero, suc, ◌+◌, ◌*◌, Text, codes, text_eq, to_upper, fields, Bool, none, some, List, [], ◌∷◌,
  ◌++◌, get_or, length, is_empty, ltb, ◌==◌, if◌then◌else◌, reverse,
}
use torii_db.Filter.Operation.{ato_operation}
use torii_db.Filter.Condition.{Filter, Filters, cond, and_, or_, not_, none_left, also}

pub record Parser : Type 0 where
  pub words : List Text
  pub position : ℕ

pub data ParseError : Type 0 where
  close_required word_required no_expression : ParseError
  operator_required : Text → ParseError
  invalid_operator : Text → ParseError
  value_required : Text → Text → ParseError
  unexpected_word : Text → ParseError

pub data Parsed {ℓ} (A : Type ℓ) : Type ℓ where
  parsed : A → Parser → Parsed A
  parse_failed : ParseError → Parsed A
  out_of_fuel : Parsed A

unfoldable pub current : Parser → Text
current p = get_or p.words p.position []

unfoldable pub next : Parser → Text × Parser
unfolding current
next p =
    let word = current p in
    (word, if is_empty word then p else record p { position = p.position + 1 })

infixl 5 ◌>>=◌
abbrev pub ◌>>=◌ {ℓ κ} : {A : Type ℓ} {B : Type κ} → Parsed A → (A → Parser → Parsed B) → Parsed B
parsed a p >>= f = f a p
parse_failed e >>= f = parse_failed e
out_of_fuel >>= f = out_of_fuel

-- The current word is a keyword, in any case.
abbrev pub at_keyword : Text → Parser → Bool
at_keyword word p = text_eq (to_upper (current p)) word

-- `Primary` at a condition: a field, an operator and a value.
unfoldable pub condition : Parser → Parsed Filter
condition p =
    let (word, p1) = next p in
    let (operator, p2) = next p1 in
    let (value, p3) = next p2 in
    if is_empty word
    then parse_failed word_required
    else if is_empty operator
    then parse_failed (operator_required word)
    else elim (ato_operation operator) [
      | none ↦ parse_failed (invalid_operator operator)
      | some op ↦
          if is_empty value
          then parse_failed (value_required word operator)
          else parsed (cond word op value) p3
    ]

-- Behind the expression in parentheses.
unfoldable pub close : Filter → Parser → Parsed Filter
close f p =
    let (word, after) = next p in
    if text_eq word (codes ")") then parsed f after else parse_failed close_required

-- `if len(filters) == 1 { return filters[0], nil }`
unfoldable pub gather : (Filters → Filter) → Filter → Filters → Filter
gather make f none_left = f
gather make f (also g gs) = make (also f (also g gs))

unfoldable mutual
  pub parse_primary : ℕ → Parser → Parsed Filter
  parse_primary zero p = out_of_fuel
  parse_primary (suc fuel) p =
      let inside = parse_or fuel (next p).1 >>= close in
      if text_eq (current p) (codes "(") then inside else condition p

  pub parse_not : ℕ → Parser → Parsed Filter
  parse_not zero p = out_of_fuel
  parse_not (suc fuel) p =
      let negated = parse_not fuel (next p).1 >>= λ f q. parsed (not_ f) q in
      let plain = parse_primary fuel p in if at_keyword (codes "NOT") p then negated else plain

  -- the loop of `And`: the operands that follow
  pub and_rest : ℕ → Parser → Parsed Filters
  and_rest zero p = out_of_fuel
  and_rest (suc fuel) p =
      let more =
        parse_not fuel (next p).1 >>= λ f q. and_rest fuel q >>= λ fs r. parsed (also f fs) r in
      if at_keyword (codes "AND") p then more else parsed none_left p

  pub parse_and : ℕ → Parser → Parsed Filter
  parse_and zero p = out_of_fuel
  parse_and (suc fuel) p =
      parse_not fuel p >>= λ f q. and_rest fuel q >>= λ fs r. parsed (gather and_ f fs) r

  -- the loop of `Or`
  pub or_rest : ℕ → Parser → Parsed Filters
  or_rest zero p = out_of_fuel
  or_rest (suc fuel) p =
      let more =
        parse_and fuel (next p).1 >>= λ f q. or_rest fuel q >>= λ fs r. parsed (also f fs) r in
      if at_keyword (codes "OR") p then more else parsed none_left p

  pub parse_or : ℕ → Parser → Parsed Filter
  parse_or zero p = out_of_fuel
  parse_or (suc fuel) p =
      parse_and fuel p >>= λ f q. or_rest fuel q >>= λ fs r. parsed (gather or_ f fs) r

-- The parentheses that a word begins with, as words, and the rest of the word.
unfoldable pub peel_open : Text → List Text × Text
peel_open [] = ([], [])
peel_open (c ∷ s) =
    let (opened, rest) = peel_open s in
    if c == b'(' then (codes "(" ∷ opened, rest) else ([], c ∷ s)

-- The same at the end of a word, over the reversed word.
unfoldable pub peel_close : Text → List Text × Text
peel_close [] = ([], [])
peel_close (c ∷ s) =
    let (closed, rest) = peel_close s in
    if c == b')' then (codes ")" ∷ closed, rest) else ([], c ∷ s)

unfoldable pub split_word : Text → List Text
split_word word =
    let (opened, tail) = peel_open word in
    let (closed, core) = peel_close (reverse tail) in
    opened ++ ((if is_empty core then [] else reverse core ∷ []) ++ closed)

unfoldable pub split_all : List Text → List Text
split_all [] = []
split_all (w ∷ ws) = split_word w ++ split_all ws

-- Five levels for each word left, and some to reach the first one.
abbrev pub enough_fuel : List Text → ℕ
enough_fuel words = 5 * length words + 5

-- The whole input must be read.
unfoldable pub finish : Filter → Parser → Parsed Filter
finish f p =
    if ltb p.position (length p.words)
    then parse_failed (unexpected_word (current p))
    else parsed f p

unfoldable pub parse_words : List Text → Parsed Filter
parse_words words =
    if is_empty words
    then parse_failed no_expression
    else (parse_or (enough_fuel words) (record { words = words; position = 0 }) >>= finish)

unfoldable pub ato_filter : Text → Parsed Filter
ato_filter str = parse_words (split_all (fields str))
