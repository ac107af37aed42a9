-- ===== src/Store/Durable/Generation.antt =====
-- The files between two commands: a newest snapshot, and nothing later.
use torii_db.Base.{
  ℕ, zero, suc, true, ◌≤◌, ◌<◌, Text, Bool, some, List, [], ◌∷◌, All, ltb, ◌==◌, ◌≡◌, refl, arith,
  Bool-cases, inl, inr,
}
use torii_db.Base.Sort.{sort, insert_sorted}
use torii_db.Store.Db.{Files, name_limit, file_get, file_put, file_get-file_put}
use torii_db.Store.Durable.Restart.{IsNewest}
use torii_db.Store.Load.{numbers, listed, snap_numbers}

-- The newest snapshot has a number and a text; the number is 0 where there is no snapshot.
abbrev pub IsGeneration : ℕ → Text → Files → Type 0
IsGeneration zero snap snaps = (snaps ≡ []) × (snap ≡ [])
IsGeneration (suc n) snap snaps =
    All (λ m. m ≤ suc n) (numbers snaps) × (file_get (suc n) snaps ≡ some snap)

All-insert_sorted :
    (less : ℕ → ℕ → Bool) (P : ℕ → Type 0) (a : ℕ) (xs : List ℕ)
    → P a
    → All P xs
    → All P (insert_sorted less a xs)
unfolding insert_sorted
All-insert_sorted less P a [] h hs = (h, tt)
All-insert_sorted less P a (x ∷ xs) h (k, ks) = elim (Bool-cases (less x a)) [
  | inl e ↦ rw e (k, All-insert_sorted less P a xs h ks)
  | inr e ↦ rw e (h, (k, ks))
]

All-sort : (less : ℕ → ℕ → Bool) (P : ℕ → Type 0) (xs : List ℕ) → All P xs → All P (sort less xs)
unfolding sort
All-sort less P [] h = tt
All-sort less P (x ∷ xs) (h, hs) =
    All-insert_sorted less P x (sort less xs) h (All-sort less P xs hs)

-- The largest number comes to the front.
insert_sorted-largest :
    (a : ℕ) (xs : List ℕ) → All (λ m. m ≤ a) xs → insert_sorted (λ b c. ltb c b) a xs ≡ a ∷ xs
unfolding insert_sorted
insert_sorted-largest a [] h = refl
insert_sorted-largest a (x ∷ xs) (h, hs) = ground arith

All-listed : (P : ℕ → Type 0) (ns : List ℕ) → All P ns → All P (listed ns)
unfolding listed
All-listed P [] h = tt
All-listed P (n ∷ ns) (h, hs) = elim (Bool-cases (ltb n name_limit)) [
  | inl e ↦ rw e (h, All-listed P ns hs)
  | inr e ↦ rw e (All-listed P ns hs)
]

snap_numbers-head :
    (n : ℕ) (snap : Text) (fs : Files)
    → n < name_limit
    → All (λ m. m ≤ n) (numbers fs)
    → file_get n fs ≡ some snap
    → (older : List ℕ) × (snap_numbers fs ≡ n ∷ older)
unfolding snap_numbers sort file_get listed
snap_numbers-head n snap [] named h e = cc
snap_numbers-head n snap ((m, text) ∷ fs) named (h, hs) e = elim (Bool-cases (m == n)) [
  | inl same ↦
      let here : m ≡ n = ground arith in
      let read : ltb n name_limit ≡ true = ground arith in
      (
        sort (λ b c. ltb c b) (listed (numbers fs)),
        rw (here, read)
            (insert_sorted-largest n _
              (All-sort (λ b c. ltb c b) (λ k. k ≤ n) _ (All-listed (λ k. k ≤ n) (numbers fs) hs))),
      )
  | inr other ↦
      let (older, found) = snap_numbers-head n snap fs named hs (rw other at e) in
      elim (Bool-cases (ltb m name_limit)) [
        | inl read ↦ (
          insert_sorted (λ b c. ltb c b) m older,
          rw (read, found) (unfold insert_sorted in ground arith),
        )
        | inr long ↦ (older, rw (long, found) refl)
      ]
]

pub IsNewest-of_IsGeneration :
    (n : ℕ) (snap : Text) (snaps : Files)
    → n < name_limit
    → IsGeneration n snap snaps
    → IsNewest n snap snaps
IsNewest-of_IsGeneration zero snap snaps named (e, h) =
    (rw e (unfold snap_numbers sort listed in refl), h)
IsNewest-of_IsGeneration (suc n) snap snaps named (h, e) =
    (snap_numbers-head (suc n) snap snaps named h e, e)

All-file_put :
    (P : ℕ → Type 0) (n : ℕ) (text : Text) (fs : Files)
    → P n
    → All P (numbers fs)
    → All P (numbers (file_put n text fs))
unfolding file_put
All-file_put P n text [] h hs = (h, tt)
All-file_put P n text ((m, old) ∷ fs) h (k, ks) = elim (Bool-cases (m == n)) [
  | inl e ↦ rw e (h, ks)
  | inr e ↦ rw e (k, All-file_put P n text fs h ks)
]

All-le_mono : (n : ℕ) (xs : List ℕ) → All (λ m. m ≤ n) xs → All (λ m. m ≤ suc n) xs
All-le_mono n [] h = tt
All-le_mono n (x ∷ xs) (h, hs) = (omega arith, All-le_mono n xs hs)

pub IsGeneration-next :
    (n : ℕ) (snap buf : Text) (snaps : Files)
    → IsGeneration n snap snaps
    → IsGeneration (suc n) buf (file_put (suc n) buf snaps)
IsGeneration-next zero snap buf snaps (e, h) =
    rw e (unfold file_put file_get in (omega arith, tt), unfold file_put file_get in refl)
IsGeneration-next (suc n) snap buf snaps (h, e) = (
  All-file_put (λ m. m ≤ suc (suc n)) (suc (suc n)) buf snaps (omega arith)
      (All-le_mono (suc n) (numbers snaps) h),
  ground (arith, file_get-file_put (suc (suc n)) (suc (suc n)) buf snaps),
)
