-- ===== src/Store/WalkSet/Laws.antt =====
-- What a write at a path does: a failed one leaves the value alone, a successful one is read back
-- at its path, and the other members of a map keep their values.
use torii_db.Base.{
  ℕ, Text, text_eq_iff, text_eq_refl, none, some, List, [], ◌∷◌, ◌≡◌, ◌≢◌, refl, arith, Bool-cases,
  Option-cases, inl, inr,
}
use torii_db.Json.{
  Json, Items, Members, null, arr, obj, end, item_count, item_get, item_set, member_get, member_set,
  member_erase, is_container,
}
use torii_db.Json.Laws.{
  item_get-item_set_self, item_set_same, item_count-item_set, item_get_of_lt, member_get-member_set,
  member_get-member_erase, member_set_same,
}
use torii_db.Utils.{index_of, index_of-lt, child, walk_keys}
use torii_db.Store.WalkSet.{WalkError, set_last, walk_set}

set_last-error :
    (v : Json) (last : Text) (value : Json) (err : WalkError)
    → (set_last v last value).1 ≡ some err
    → (set_last v last value).0 ≡ v
unfolding set_last
set_last-error (obj ms) last null err h = cc
set_last-error (obj ms) last _ err h = cc
set_last-error (arr xs) last value err h = ground arith
set_last-error v last value err h = refl

-- A new map takes any path.
walk_set_fresh :
    (fields : List Text) (field : Text) (value : Json)
    → (walk_set (obj end) (field ∷ fields) value).1 ≡ none
unfolding walk_set member_get
walk_set_fresh [] field null = refl
walk_set_fresh [] field _ = refl
walk_set_fresh (next ∷ fields) field value = walk_set_fresh fields next value

-- A write at a path that returns an error has left the value as it was, although it writes in place
-- and creates the maps on its way.
pub walk_set-error :
    (v : Json) (fields : List Text) (value : Json) (err : WalkError)
    → (walk_set v fields value).1 ≡ some err
    → (walk_set v fields value).0 ≡ v
unfolding walk_set
walk_set-error v [] value err h = refl
walk_set-error v (last ∷ []) value err h = set_last-error v last value err h
walk_set-error (obj ms) (field ∷ next ∷ rest) value err h =
    elim (Option-cases (member_get field ms)) [
      | inl e ↦ ground (arith, walk_set_fresh rest next value)
      | inr (sub, e) ↦
          ground (arith, walk_set-error sub (next ∷ rest) value err, member_set_same field sub ms)
    ]
walk_set-error (arr xs) (field ∷ next ∷ rest) value err h =
    elim (Option-cases (index_of field (item_count xs))) [
      | inl e ↦ ground arith
      | inr (i, e) ↦ elim (Option-cases (item_get xs i)) [
        | inl f ↦ ground arith
        | inr (sub, f) ↦
            ground (arith, walk_set-error sub (next ∷ rest) value err, item_set_same xs i sub)
      ]
    ]
walk_set-error v (field ∷ next ∷ rest) value err h = refl

child-member_set :
    (ms : Members) (field : Text) (v : Json) → child (obj (member_set field v ms)) field ≡ some v
unfolding child
child-member_set ms field v =
    ground (arith, member_get-member_set field field v ms, text_eq_refl field)

child-item_set :
    (xs : Items) (field : Text) (i : ℕ) (v : Json)
    → index_of field (item_count xs) ≡ some i
    → child (arr (item_set xs i v)) field ≡ some v
unfolding child
child-item_set xs field i v e =
    let (w, found) = item_get_of_lt xs i (index_of-lt field _ i e) in
    rw (item_count-item_set, e) (item_get-item_set_self xs i v w found)

-- The child that a successful write at one name leaves there.
set_last-child :
    (v : Json) (last : Text) (value : Json)
    → value ≢ null
    → (set_last v last value).1 ≡ none
    → child (set_last v last value).0 last ≡ some value
unfolding set_last
set_last-child (obj ms) last null ne h = absurd (ne refl)
set_last-child (obj ms) last _ ne h = child-member_set ms last _
set_last-child (arr xs) last value ne h = elim (Option-cases (index_of last (item_count xs))) [
  | inl e ↦ ground arith
  | inr (i, e) ↦ ground (arith, child-item_set xs last i value)
]
set_last-child v last value ne h = cc

-- A value other than null that is written at a path without an error is read back at that path.
pub walk_keys-walk_set :
    (v : Json) (fields : List Text) (value : Json)
    → value ≢ null
    → (walk_set v fields value).1 ≡ none
    → walk_keys (walk_set v fields value).0 fields ≡ some value
unfolding walk_set walk_keys
walk_keys-walk_set v [] value ne h = cc
walk_keys-walk_set v (last ∷ []) value ne h = rw (set_last-child v last value ne h)
walk_keys-walk_set (obj ms) (field ∷ next ∷ rest) value ne h =
    elim (Option-cases (member_get field ms)) [
      | inl e ↦
          let inner = walk_set (obj end) (next ∷ rest) value in
          let read =
            walk_keys-walk_set (obj end) (next ∷ rest) value ne (walk_set_fresh rest next value) in
          ground (arith, read, child-member_set ms field inner.0)
      | inr (sub, e) ↦ ground (
        arith,
        walk_keys-walk_set sub (next ∷ rest) value ne,
        child-member_set ms field (walk_set sub (next ∷ rest) value).0,
      )
    ]
walk_keys-walk_set (arr xs) (field ∷ next ∷ rest) value ne h =
    elim (Option-cases (index_of field (item_count xs))) [
      | inl e ↦ ground arith
      | inr (i, e) ↦ elim (Option-cases (item_get xs i)) [
        | inl f ↦ ground arith
        | inr (sub, f) ↦ ground (
          arith,
          walk_keys-walk_set sub (next ∷ rest) value ne,
          child-item_set xs field i (walk_set sub (next ∷ rest) value).0,
        )
      ]
    ]
walk_keys-walk_set v (field ∷ next ∷ rest) value ne h = cc

-- A map is still a map.
pub walk_set-obj :
    (ms : Members) (fields : List Text) (value : Json)
    → (after : Members) × ((walk_set (obj ms) fields value).0 ≡ obj after)
unfolding walk_set set_last
walk_set-obj ms [] value = (ms, refl)
walk_set-obj ms (last ∷ []) null = (member_erase last ms, refl)
walk_set-obj ms (last ∷ []) value = (member_set last value ms, refl)
walk_set-obj ms (field ∷ next ∷ rest) value = elim (Option-cases (member_get field ms)) [
  | inl e ↦ (member_set field (walk_set (obj end) (next ∷ rest) value).0 ms, ground arith)
  | inr (sub, e) ↦ elim (Bool-cases (is_container sub)) [
    | inl c ↦ (member_set field (walk_set sub (next ∷ rest) value).0 ms, ground arith)
    | inr c ↦ (ms, ground arith)
  ]
]

set_last-frame :
    (ms : Members) (last other : Text) (value : Json)
    → last ≢ other
    → child (set_last (obj ms) last value).0 other ≡ child (obj ms) other
unfolding set_last child
set_last-frame ms last other null ne =
    ground (arith, member_get-member_erase last other ms, text_eq_iff last other)
set_last-frame ms last other value ne =
    ground (arith, member_get-member_set last other value ms, text_eq_iff last other)

-- A write below one name of a map changes nothing that is read below another name, error or not.
pub walk_set-frame :
    (ms : Members) (field other : Text) (fields keys : List Text) (value : Json)
    → field ≢ other
    → walk_keys (walk_set (obj ms) (field ∷ fields) value).0 (other ∷ keys)
      ≡ walk_keys (obj ms) (other ∷ keys)
unfolding walk_keys
walk_set-frame ms field other fields keys value ne = rw (same fields)
  where
    into-frame : (v : Json) → child (obj (member_set field v ms)) other ≡ child (obj ms) other
    into-frame v =
        unfold child in
        ground (arith, member_get-member_set field other v ms, text_eq_iff field other)

    same :
        (fields : List Text)
        → child (walk_set (obj ms) (field ∷ fields) value).0 other ≡ child (obj ms) other
    same [] = unfold walk_set in set_last-frame ms field other value ne
    same (next ∷ rest) =
        unfold walk_set in
        elim (Option-cases (member_get field ms)) [
          | inl e ↦ ground (arith, into-frame (walk_set (obj end) (next ∷ rest) value).0)
          | inr (sub, e) ↦ ground (arith, into-frame (walk_set sub (next ∷ rest) value).0)
        ]

-- Writing null at a name of a map takes the member away.
pub walk_set-null :
    (ms : Members) (last : Text)
    → walk_keys (walk_set (obj ms) (last ∷ []) null).0 (last ∷ []) ≡ none
unfolding walk_set set_last walk_keys child
walk_set-null ms last = ground (arith, member_get-member_erase last last ms, text_eq_refl last)
