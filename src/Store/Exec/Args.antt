-- ===== src/Store/Exec/Args.antt =====
-- The arguments of a command line: the functions below `Exec` in core/store/exec.go.
use torii_db.Base.{
  ℕ, zero, suc, ◌-◌, ℤ, pos, ◌+ℤ◌, wrap64, Text, codes, text_eq, to_upper, cut, split_nonempty,
  join, Bool, true, false, ◌&&◌, Option, none, some, List, [], ◌∷◌, ◌++◌, get_or, length, take,
  is_empty, leb, if◌then◌else◌,
}
use torii_db.Base.Number.{parse_int, format_nat}
use torii_db.Store.Set.{SetFlag, set_default, set_nx, set_xx}

-- A number that is greater than 0.
abbrev pub positive : Option ℤ → Option ℕ
positive (some (pos (suc n))) = some (suc n)
positive _ = none

-- The word `back` places from the end, of the first `len`; and whether it is a keyword.
abbrev pub word_at : List Text → ℕ → ℕ → Text
word_at args len back = get_or args (len - back) []

abbrev pub is_word : Text → Text → Bool
is_word keyword word = text_eq (to_upper word) keyword

-- `LIMIT <n>` at the end of the first `len` words.
unfoldable pub limit_at : List Text → ℕ → Option ℕ
limit_at args len =
    if leb 2 len && is_word (codes "LIMIT") (word_at args len 2)
    then positive (parse_int (word_at args len 1))
    else none

-- `parseLimit`; no limit is 0.
unfoldable pub parse_limit : List Text → List Text × ℕ
parse_limit args = elim (limit_at args (length args)) [
  | some limit ↦ (take (length args - 2) args, limit)
  | none ↦ (args, 0)
]

-- `extractLimitFromInfix`
unfoldable pub extract_limit_from_infix : List Text → Text × ℕ
extract_limit_from_infix tokens = elim (limit_at tokens (length tokens)) [
  | some limit ↦ (join (codes " ") (take (length tokens - 2) tokens), limit)
  | none ↦ (join (codes " ") tokens, 0)
]

-- What is left of the words of VSEARCH, and the options found so far.
pub record Peel : Type 0 where
  pub end : ℕ
  pub pattern : Text
  pub limit : ℕ
  pub peeled : Bool

unfoldable pub peel_limit : List Text → Peel → Peel
peel_limit args p = elim (limit_at args p.end) [
  | some limit ↦ record p { limit = limit; end = p.end - 2; peeled = true }
  | none ↦ p
]

unfoldable pub peel_match : List Text → Peel → Peel
peel_match args p =
    if leb 2 p.end && is_word (codes "MATCH") (word_at args p.end 2)
    then record p { pattern = word_at args p.end 1; end = p.end - 2; peeled = true }
    else p

-- Each round of the loop but the last takes two words, so fuel above `end` is enough.
unfoldable pub peel_options : ℕ → List Text → Peel → Peel
peel_options zero args p = p
peel_options (suc fuel) args p =
    let p' = peel_match args (peel_limit args (record p { peeled = false })) in
    let rest = peel_options fuel args p' in if p'.peeled then rest else p'

unfoldable pub parse_vsearch_args : List Text → Text × Text × ℕ
parse_vsearch_args args =
    let p =
      peel_options (suc (length args)) args
        (record { end = length args; pattern = []; limit = 0; peeled = false }) in
    (join (codes " ") (take p.end args), p.pattern, p.limit)

pub record SetArgs : Type 0 where
  pub end : ℕ
  pub flag : SetFlag
  pub expire_at : Option ℤ
  pub vector : Bool

unfoldable pub peel_vector : List Text → SetArgs → SetArgs
peel_vector args a =
    if leb 2 a.end && is_word (codes "VECTOR") (word_at args a.end 1)
    then record a { vector = true; end = a.end - 1 }
    else a

abbrev with_seconds : ℤ → SetArgs → Option ℕ → SetArgs
with_seconds now a none = a
with_seconds now a (some sec) = record a {
  expire_at = some (wrap64 (now +ℤ pos sec));
  end = a.end - 1;
}

unfoldable pub peel_seconds : ℤ → List Text → SetArgs → SetArgs
peel_seconds now args a =
    if leb 2 a.end then with_seconds now a (positive (parse_int (word_at args a.end 1))) else a

unfoldable pub peel_flag : List Text → SetArgs → SetArgs
peel_flag args a =
    if leb 2 a.end
    then (if is_word (codes "NX") (word_at args a.end 1)
        then record a { flag = set_nx; end = a.end - 1 }
        else if is_word (codes "XX") (word_at args a.end 1)
        then record a { flag = set_xx; end = a.end - 1 }
        else a)
    else a

-- `parseSetArgs`: the value is the first `end` words.
unfoldable pub parse_set_args : ℤ → List Text → Text × SetArgs
parse_set_args now args =
    let a = peel_flag args (
      peel_seconds now args (
        peel_vector args
          (record { end = length args; flag = set_default; expire_at = none; vector = false }))) in
    (join (codes " ") (take a.end args), a)

split_cut : Text → Option (Text × Text) → Text × List Text
split_cut key none = (key, [])
split_cut key (some (main_key, [])) = (main_key, [])
split_cut key (some (main_key, c ∷ s)) = (main_key, split_nonempty b'.' (c ∷ s))

-- `splitKey`: the key in front of the first dot, and the names behind it.
unfoldable pub split_key : Text → Text × List Text
unfolding split_cut
split_key key = split_cut key (cut b'.' key)

show_from : ℕ → List Text → List Text
show_from i [] = []
show_from i (k ∷ ks) = (format_nat i ++ (codes ") " ++ k)) ∷ show_from (suc i) ks

-- `showList`: numbered lines.
unfoldable pub show_list : List Text → Text
unfolding show_from
show_list ks = if is_empty ks then codes "(empty list)" else join (10 ∷ []) (show_from 1 ks)
