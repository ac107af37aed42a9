-- ===== src/Store/Names/Laws.antt =====
-- The name of a numbered file is read back.
use torii_db.Base.{
  ℕ, zero, suc, ◌+◌, ◌-◌, ◌^◌, ◌≤◌, ◌<◌, pos, Text, text_eq, text_eq_refl, true, false, none, some,
  [], ◌∷◌, ◌++◌, All, length, ◌==◌, if◌then◌else◌, ◌≡◌, refl, ◌∙◌, arith, ltb, Bool-cases, inl, inr,
}
use torii_db.Base.Number.{format_nat, parse_int, digits_from}
use torii_db.Base.Number.Digits.{
  IsDigit, All-format_nat, length-format_nat, format_nat-long, digits_from-format_nat,
  digits_from-zero, parse_int-digits,
}
use torii_db.Store.Names.{
  zeros, pad, Kind, snap, log, kind_name, file_name, cut_dot, parse_kind, numbered, parse_base,
  parse_cut, parse_name,
}

zeros-digits : (k : ℕ) (s : Text) → All IsDigit s → All IsDigit (zeros k s)
unfolding zeros
zeros-digits zero s h = h
zeros-digits (suc k) s h = (refl, zeros-digits k s h)

length-zeros : (k : ℕ) (s : Text) → length (zeros k s) ≡ k + length s
unfolding zeros
length-zeros zero s = omega arith
length-zeros (suc k) s = omega (arith, length-zeros k s)

digits_from-zeros : (k : ℕ) (s : Text) → digits_from 0 (zeros k s) ≡ digits_from 0 s
unfolding zeros
digits_from-zeros zero s = refl
digits_from-zeros (suc k) s = digits_from-zero (zeros k s) ∙ digits_from-zeros k s

length-pad : (n : ℕ) → n < 10 ^ 8 → length (pad n) ≡ 8
unfolding pad
length-pad n h =
    omega (arith, length-zeros (8 - length (format_nat n)) (format_nat n), length-format_nat n 7 h)

pad-digits : (n : ℕ) → All IsDigit (pad n)
unfolding pad
pad-digits n = zeros-digits (8 - length (format_nat n)) (format_nat n) (All-format_nat n)

parse_int-pad : (n : ℕ) → n < 10 ^ 8 → parse_int (pad n) ≡ some (pos n)
parse_int-pad n h =
    parse_int-digits (pad n) n (omega (arith, length-pad n h)) (pad-digits n)
      (unfold pad in
        digits_from-zeros (8 - length (format_nat n)) (format_nat n) ∙ digits_from-format_nat n)
      (omega arith)

cut_dot-digits : (s t : Text) → All IsDigit s → cut_dot (s ++ (b'.' ∷ t)) ≡ some (s, t)
unfolding cut_dot
cut_dot-digits [] t h = refl
cut_dot-digits (c ∷ s) t (h, hs) =
    let no_dot : (c == b'.') ≡ false = ground arith in rw (no_dot, cut_dot-digits s t hs) refl

parse_kind-kind_name : (kind : Kind) → parse_kind (kind_name kind) ≡ some kind
unfolding parse_kind kind_name text_eq
parse_kind-kind_name snap = refl
parse_kind-kind_name log = refl

parse_name-pad :
    (n : ℕ) (kind : Kind) → parse_name (file_name n kind) ≡ parse_base (pad n) (some kind)
unfolding parse_name file_name parse_cut
parse_name-pad n kind =
    rw (cut_dot-digits (pad n) (kind_name kind) (pad-digits n), parse_kind-kind_name kind) refl

long-pad : (n : ℕ) → 10 ^ 8 ≤ n → 8 < length (pad n)
unfolding pad
long-pad n h =
    omega (arith, length-zeros (8 - length (format_nat n)) (format_nat n), format_nat-long n 8 h)

-- The name of a snapshot or a log is read back as its number and kind if the number is below
-- 100,000,000; a larger number's name is not read back at all.
pub parse_name-file_name :
    (n : ℕ) (kind : Kind)
    → parse_name (file_name n kind) ≡ (if ltb n (10 ^ 8) then some (n, kind) else none)
unfolding parse_base numbered
parse_name-file_name n kind = parse_name-pad n kind ∙ elim (Bool-cases (ltb n (10 ^ 8))) [
  | inl small ↦
      let h : n < 10 ^ 8 = ground arith in
      let eight : (length (pad n) == 8) ≡ true = ground (arith, length-pad n h) in
      rw (small, eight, parse_int-pad n h, text_eq_refl (pad n)) refl
  | inr large ↦
      let longer : (length (pad n) == 8) ≡ false = ground (arith, long-pad n (ground arith)) in
      rw (large, longer) refl
]
