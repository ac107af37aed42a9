-- ===== src/Store/Names.antt =====
-- `snapPath`, `logPath` and `parseName` of core/store/gc.go: the names of numbered files.
pub mod Laws
use torii_db.Base.{
  ℕ, zero, suc, ◌-◌, ℤ, pos, negsuc, Text, codes, text_eq, Bool, true, false, not, ◌&&◌, ◌||◌,
  Option, none, some, List, [], ◌∷◌, ◌++◌, length, ◌==◌, if◌then◌else◌,
}
use torii_db.Base.Number.{format_nat, parse_int}

unfoldable pub zeros : ℕ → Text → Text
zeros zero s = s
zeros (suc n) s = b'0' ∷ zeros n s

-- fmt's verb %08d of a number that is not negative
unfoldable pub pad : ℕ → Text
pad n = zeros (8 - length (format_nat n)) (format_nat n)

pub data Kind : Type 0 where
  snap log : Kind

unfoldable pub kind_name : Kind → Text
kind_name snap = codes "snap"
kind_name log = codes "log"

unfoldable pub file_name : ℕ → Kind → Text
file_name n kind = pad n ++ (b'.' ∷ kind_name kind)

abbrev pub put_first : ℕ → Option (Text × Text) → Option (Text × Text)
put_first c none = none
put_first c (some (base, kind)) = some (c ∷ base, kind)

-- strings.Cut at the first dot
unfoldable pub cut_dot : Text → Option (Text × Text)
cut_dot [] = none
cut_dot (c ∷ s) = let rest = cut_dot s in if c == b'.' then some ([], s) else put_first c rest

unfoldable pub parse_kind : Text → Option Kind
parse_kind s =
    if text_eq s (codes "snap")
    then some snap
    else if text_eq s (codes "log")
    then some log
    else none

unfoldable pub numbered : Text → Kind → Option ℤ → Option (ℕ × Kind)
numbered base kind (some (pos n)) = if text_eq (pad n) base then some (n, kind) else none
numbered base kind _ = none

unfoldable pub parse_base : Text → Option Kind → Option (ℕ × Kind)
parse_base base none = none
parse_base base (some kind) = if length base == 8 then numbered base kind (parse_int base) else none

unfoldable pub parse_cut : Option (Text × Text) → Option (ℕ × Kind)
parse_cut none = none
parse_cut (some (base, kind)) = parse_base base (parse_kind kind)

unfoldable pub parse_name : Text → Option (ℕ × Kind)
parse_name name = parse_cut (cut_dot name)
