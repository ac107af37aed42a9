-- ===== src/Store/Replay/Lines.antt =====
-- The lines of a file that is written line by line.
use torii_db.Base.{◌==◌, true, List, Bool, ℕ, Text, [], ◌∷◌, ◌++◌, ◌≡◌, ◌≢◌, refl, arith, All}
use torii_db.Store.Replay.{cons_line, lines_of}

abbrev pub NoNewline : Text → Type 0
NoNewline = All (λ c. c ≢ 10)

-- The text is empty or ends in a newline.
abbrev pub ends_line : Text → Bool
ends_line [] = true
ends_line (c ∷ []) = c == 10
ends_line (c ∷ d ∷ s) = ends_line (d ∷ s)

lines_of-ne-nil : (c : ℕ) (s : Text) → lines_of (c ∷ s) ≢ []
unfolding lines_of
lines_of-ne-nil c s = ground arith

cons_line-append :
    (c : ℕ) (ls ms : List Text) → ls ≢ [] → cons_line c (ls ++ ms) ≡ cons_line c ls ++ ms
cons_line-append c [] ms h = absurd (h refl)
cons_line-append c (l ∷ ls) ms h = refl

-- What is appended behind whole lines has lines of its own.
pub lines_of-append :
    (s t : Text) → ends_line s ≡ true → lines_of (s ++ t) ≡ lines_of s ++ lines_of t
unfolding lines_of
lines_of-append [] t h = refl
lines_of-append (c ∷ []) t h = ground arith
lines_of-append (c ∷ d ∷ s) t h =
    rw (lines_of-append (d ∷ s) t h)
      (ground (arith, cons_line-append c (lines_of (d ∷ s)) (lines_of t) (lines_of-ne-nil d s)))

-- A line by itself.
pub lines_of-line :
    (line : Text) → NoNewline line → lines_of (line ++ 10 ∷ []) ≡ (line ++ 10 ∷ []) ∷ []
unfolding lines_of
lines_of-line [] h = refl
lines_of-line (c ∷ line) (ne, h) = ground (arith, lines_of-line line h)

-- What ends in no newline is one line.
pub lines_of-tail :
    (c : ℕ) (tail : Text) → NoNewline (c ∷ tail) → lines_of (c ∷ tail) ≡ (c ∷ tail) ∷ []
unfolding lines_of
lines_of-tail c [] h = ground arith
lines_of-tail c (d ∷ tail) (ne, h) = ground (arith, lines_of-tail d tail h)

pub ends_line-append : (s line : Text) → ends_line (s ++ (line ++ 10 ∷ [])) ≡ true
ends_line-append [] [] = refl
ends_line-append [] (c ∷ []) = refl
ends_line-append [] (c ∷ d ∷ line) = ends_line-append [] (d ∷ line)
ends_line-append (c ∷ []) [] = refl
ends_line-append (c ∷ []) (d ∷ line) = ends_line-append [] (d ∷ line)
ends_line-append (c ∷ d ∷ s) line = ends_line-append (d ∷ s) line
