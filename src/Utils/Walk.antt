-- ===== src/Utils/Walk.antt =====
-- `WalkKeys` over joined paths.
use torii_db.Base.{Text, Option, some, List, [], ◌∷◌, ◌++◌, ◌>>=◌, ◌≡◌, refl, none}
use torii_db.Json.{Json}
use torii_db.Utils.{child, walk_keys}

step-append :
    (o : Option Json) (rest more : List Text)
    → ((v : Json) → walk_keys v (rest ++ more) ≡ (walk_keys v rest >>= λ w. walk_keys w more))
    → (o >>= λ v. walk_keys v (rest ++ more))
      ≡ ((o >>= λ v. walk_keys v rest) >>= λ w. walk_keys w more)
step-append none rest more ih = refl
step-append (some v) rest more ih = ih v

-- Walking a joined path into a value is walking its first part and then, from what that finds, its
-- second.
pub walk_keys-append :
    (v : Json) (keys more : List Text)
    → walk_keys v (keys ++ more) ≡ (walk_keys v keys >>= λ w. walk_keys w more)
unfolding walk_keys
walk_keys-append v [] more = refl
walk_keys-append v (key ∷ keys) more =
    step-append (child v key) keys more (λ w. walk_keys-append w keys more)
