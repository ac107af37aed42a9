-- ===== src/Base/Number/Digits.antt =====
-- A printed number is read back, and has no more digits than it needs.
use torii_db.Base.Tests.{ltb, leb, Bool-cases}
use mathlib.Core.Logic.{inl, inr}
use torii_db.Base.Texts.{Text}
use torii_db.Base.Int.{pos}
use torii_db.Base.Lists.{length, All}
use torii_db.Base.Number.{
  is_digit, digits_from, format_from, format_nat, parse_int, parse_signed, parse_digits,
}
use Prim.Native.Nat.{ℕ, zero, suc, ◌+◌, ◌-◌, ◌*◌, ◌/◌, ◌%◌, ◌^◌, ◌≤◌, ◌<◌}
use mathlib.Core.Bool.{true, false, ◌&&◌}
use mathlib.Core.Option.{some}
use mathlib.Core.List.{[], ◌∷◌}
use mathlib.Core.Path.{◌≡◌, refl, ◌∙◌, ap}
use native.Mathlib.Omega.{arith}

abbrev pub IsDigit : ℕ → Type 0
IsDigit c = is_digit c ≡ true

digit-step :
    (m d : ℕ) (acc : Text)
    → d < 10
    → digits_from m ((d + b'0') ∷ acc) ≡ digits_from (m * 10 + d) acc
unfolding digits_from
digit-step m d acc h =
    let digit : is_digit (d + b'0') ≡ true = ground arith in
    let same : d + b'0' - b'0' ≡ d = omega arith in rw (digit, same) refl

digits_from-format_from :
    (f n : ℕ) (acc : Text) → n < f → digits_from 0 (format_from f n acc) ≡ digits_from n acc
unfolding format_from
digits_from-format_from zero n acc h = absurd (omega arith)
digits_from-format_from (suc f) n acc h = elim (Bool-cases (ltb n 10)) [
  | inl small ↦
      let same : 0 * 10 + n ≡ n = omega arith in
      rw small (digit-step 0 n acc (ground arith) ∙ ap (λ (k : ℕ). digits_from k acc) same)
  | inr large ↦
      let same : n / 10 * 10 + n % 10 ≡ n = omega arith in
      rw large (
        digits_from-format_from f (n / 10) ((n % 10 + b'0') ∷ acc) (ground arith)
        ∙ (digit-step (n / 10) (n % 10) acc (omega arith) ∙ ap (λ (k : ℕ). digits_from k acc) same))
]

format_from-digits :
    (f n : ℕ) (acc : Text) → n < f → All IsDigit acc → All IsDigit (format_from f n acc)
unfolding format_from
format_from-digits zero n acc h hs = hs
format_from-digits (suc f) n acc h hs = elim (Bool-cases (ltb n 10)) [
  | inl small ↦ rw small (ground arith, hs)
  | inr large ↦
      rw large
        (format_from-digits f (n / 10) ((n % 10 + b'0') ∷ acc) (ground arith) (ground arith, hs))
]

length-format_from :
    (f n k : ℕ) (acc : Text)
    → n < f
    → n < 10 ^ suc k
    → length (format_from f n acc) ≤ suc k + length acc
unfolding format_from
length-format_from zero n k acc h small = absurd (omega arith)
length-format_from (suc f) n zero acc h small =
    let one : ltb n 10 ≡ true = ground arith in rw one (omega arith)
length-format_from (suc f) n (suc k) acc h small = elim (Bool-cases (ltb n 10)) [
  | inl one ↦ rw one (omega arith)
  | inr more ↦
      let rest =
        length-format_from f (n / 10) k ((n % 10 + b'0') ∷ acc) (ground arith) (grind arith) in
      rw more (omega (arith, rest))
]

power-positive : (k : ℕ) → 0 < 10 ^ k
power-positive zero = omega arith
power-positive (suc k) = grind (arith, power-positive k)

format_from-long :
    (f n k : ℕ) (acc : Text)
    → n < f
    → 10 ^ k ≤ n
    → suc k + length acc ≤ length (format_from f n acc)
unfolding format_from
format_from-long zero n k acc h large = absurd (omega arith)
format_from-long (suc f) n zero acc h large = elim (Bool-cases (ltb n 10)) [
  | inl one ↦ rw one (omega arith)
  | inr more ↦
      let rest =
        format_from-long f (n / 10) zero ((n % 10 + b'0') ∷ acc) (ground arith) (ground arith) in
      rw more (omega (arith, rest))
]
format_from-long (suc f) n (suc k) acc h large =
    let positive : 0 < 10 ^ k = power-positive k in
    let above : 10 * 10 ^ k ≤ n = grind arith in
    let more : ltb n 10 ≡ false = ground arith in
    let rest = format_from-long f (n / 10) k ((n % 10 + b'0') ∷ acc) (omega arith) (omega arith) in
    rw more (omega (arith, rest))

pub format_nat-long : (n k : ℕ) → 10 ^ k ≤ n → suc k ≤ length (format_nat n)
unfolding format_nat
format_nat-long n k h = omega (arith, format_from-long (suc n) n k [] (omega arith) h)

pub All-format_nat : (n : ℕ) → All IsDigit (format_nat n)
unfolding format_nat
All-format_nat n = format_from-digits (suc n) n [] (omega arith) tt

pub length-format_nat : (n k : ℕ) → n < 10 ^ suc k → length (format_nat n) ≤ suc k
unfolding format_nat
length-format_nat n k h = omega (arith, length-format_from (suc n) n k [] (omega arith) h)

pub digits_from-format_nat : (n : ℕ) → digits_from 0 (format_nat n) ≡ some n
unfolding format_nat digits_from
digits_from-format_nat n = digits_from-format_from (suc n) n [] (omega arith)

pub digits_from-zero : (s : Text) → digits_from 0 (b'0' ∷ s) ≡ digits_from 0 s
digits_from-zero s = digit-step 0 0 s (omega arith)

-- A text of digits, and one at least, has no sign.
pub parse_int-digits :
    (s : Text) (n : ℕ)
    → 0 < length s
    → All IsDigit s
    → digits_from 0 s ≡ some n
    → n < 2 ^ 63
    → parse_int s ≡ some (pos n)
unfolding parse_int parse_signed parse_digits
parse_int-digits [] n some_digit h e small = absurd (omega arith)
parse_int-digits (c ∷ s) n some_digit (h, hs) e small =
    let no_minus : (leb b'-' c && leb c b'-') ≡ false = ground arith in
    let no_plus : (leb b'+' c && leb c b'+') ≡ false = ground arith in
    let fits : ltb n (2 ^ 63) ≡ true = ground arith in rw (no_minus, no_plus, e, fits) refl
