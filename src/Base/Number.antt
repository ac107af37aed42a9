-- ===== src/Base/Number.antt =====
-- Decimal numbers: Go's `strconv.ParseInt(s, 10, 64)`, which `strconv.Atoi` agrees with on a 64-bit
-- machine, and `strconv.FormatInt(n, 10)`.
pub mod Digits
use torii_db.Base.Tests.{ltb, leb, if◌then◌else◌, ◌>>=◌}
use torii_db.Base.Texts.{Text}
use torii_db.Base.Int.{ℤ, pos, negsuc}
use Prim.Native.Nat.{ℕ, zero, suc, ◌+◌, ◌-◌, ◌*◌, ◌/◌, ◌%◌, ◌^◌}
use mathlib.Core.Bool.{Bool, ◌&&◌}
use mathlib.Core.Option.{Option, none, some}
use mathlib.Core.List.{[], ◌∷◌}

abbrev pub is_digit : ℕ → Bool
is_digit c = leb b'0' c && leb c b'9'

pub digits_from : ℕ → Text → Option ℕ
digits_from n [] = some n
digits_from n (c ∷ s) =
    let rest = digits_from (n * 10 + (c - b'0')) s in if is_digit c then rest else none

-- At least one digit.
unfoldable pub parse_digits : Text → Option ℕ
unfolding digits_from
parse_digits [] = none
parse_digits (c ∷ s) = digits_from 0 (c ∷ s)

-- -n
abbrev negate : ℕ → ℤ
negate zero = pos 0
negate (suc n) = negsuc n

abbrev in_range_pos : ℕ → Option ℤ
in_range_pos n = if ltb n (2 ^ 63) then some (pos n) else none

abbrev in_range_neg : ℕ → Option ℤ
in_range_neg n = if leb n (2 ^ 63) then some (negate n) else none

parse_signed : ℕ → Text → Option ℤ
unfolding parse_digits
parse_signed c s =
    if leb b'-' c && leb c b'-'
    then (parse_digits s >>= in_range_neg)
    else if leb b'+' c && leb c b'+'
    then (parse_digits s >>= in_range_pos)
    else (parse_digits (c ∷ s) >>= in_range_pos)

-- A sign or none, digits, and a value that an int64 holds.
unfoldable pub parse_int : Text → Option ℤ
unfolding parse_signed
parse_int [] = none
parse_int (c ∷ s) = parse_signed c s

-- The digits of a number in front of a text. The fuel `suc n` is more than its digits.
pub format_from : ℕ → ℕ → Text → Text
format_from zero n acc = acc
format_from (suc f) n acc =
    let more = format_from f (n / 10) ((n % 10 + b'0') ∷ acc) in
    if ltb n 10 then (n + b'0') ∷ acc else more

unfoldable pub format_nat : ℕ → Text
unfolding format_from
format_nat n = format_from (suc n) n []

unfoldable pub format_int : ℤ → Text
unfolding format_nat
format_int (pos n) = format_nat n
format_int (negsuc n) = b'-' ∷ format_nat (suc n)
