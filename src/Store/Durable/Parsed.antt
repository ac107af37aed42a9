-- ===== src/Store/Durable/Parsed.antt =====
-- The caches that a replay fills: `parseAndCache` in `replayInto` of core/store/aof.go.
use torii_db.Base.{
  ℕ, ℤ, Text, text_eq, Dict, Bool, true, false, Option, none, some, List, [], ◌∷◌, lookup, insert,
  erase, lookup-nil, lookup-insert, lookup-erase, if◌then◌else◌, ◌≡◌, refl, arith, Bool-cases,
  Option-cases, inl, inr,
}
use torii_db.External.{External}
use torii_db.Record.{Record}
use torii_db.Store.Durable.{Agree}
use torii_db.Store.Entry.{Entry, is_json, cached, parse_and_cache, set_value}
use torii_db.Store.Replay.{
  lines_of, decode_record_vector, replayed_entry, apply_set, apply_expiry, apply_record, apply_line,
  apply_lines, replay_text,
}
use torii_db.Store.Set.{with_cache}

-- The cache of an entry, if there is one, is what its value parses to, and there is none where the
-- entry is not JSON.
abbrev pub HasParsed : External → Option Entry → Type 0
HasParsed ext none = Unit {0}
HasParsed ext (some e) = cached e ≡ (if is_json e.type then ext.json_unmarshal e.value else none)

abbrev pub AllParsed : External → Dict Entry → Type 0
AllParsed ext m = (k : Text) → HasParsed ext (lookup k m)

-- What a restart gives back of a memory: values, types, expiries and vectors that agree, and full
-- caches. The times of creation and update are not compared.
abbrev pub Restored : External → ℤ → Dict Entry → Dict Entry → Type 0
Restored ext now m' m = Agree now m' m × AllParsed ext m'

module _ (ext : External) where
  with_cache-HasParsed : (e : Entry) → e.parsed ≡ none → HasParsed ext (some (with_cache ext e))
  unfolding with_cache parse_and_cache cached
  with_cache-HasParsed e empty = elim (Bool-cases (is_json e.type)) [
    | inr other ↦ ground (arith, other)
    | inl json ↦ elim (Option-cases (ext.json_unmarshal e.value)) [
      | inl bad ↦ ground (arith, json, empty, bad)
      | inr (v, good) ↦ ground (arith, json, empty, good)
    ]
  ]

  replayed_entry-parsed :
      (r : Record) (vec : List ℕ) (o : Option Entry) → (replayed_entry ext r vec o).parsed ≡ none
  unfolding replayed_entry set_value
  replayed_entry-parsed r vec none = refl
  replayed_entry-parsed r vec (some e) = refl

  insert-AllParsed :
      (key : Text) (e : Entry) (m : Dict Entry)
      → HasParsed ext (some e)
      → AllParsed ext m
      → AllParsed ext (insert key e m)
  insert-AllParsed key e m h all k = elim (Bool-cases (text_eq key k)) [
    | inl here ↦ rw (lookup-insert key k e m, here) h
    | inr other ↦ rw (lookup-insert key k e m, other) (all k)
  ]

  erase-AllParsed : (key : Text) (m : Dict Entry) → AllParsed ext m → AllParsed ext (erase key m)
  erase-AllParsed key m all k = elim (Bool-cases (text_eq key k)) [
    | inl here ↦ rw (lookup-erase key k m, here) tt
    | inr other ↦ rw (lookup-erase key k m, other) (all k)
  ]

  apply_set-AllParsed :
      (r : Record) (vec : Option (List ℕ)) (m : Dict Entry)
      → AllParsed ext m
      → AllParsed ext (apply_set ext r vec m)
  unfolding apply_set
  apply_set-AllParsed r none m all = all
  apply_set-AllParsed r (some vec) m all =
      insert-AllParsed r.key _ m
        (with_cache-HasParsed _ (replayed_entry-parsed r vec (lookup r.key m))) all

  apply_expiry-AllParsed :
      (key : Text) (t : Option ℤ) (m : Dict Entry)
      → AllParsed ext m
      → AllParsed ext (apply_expiry ext key t (lookup key m) m)
  unfolding apply_expiry
  apply_expiry-AllParsed key t m all = elim (Option-cases (lookup key m)) [
    | inl e ↦ rw (apply_expiry, e) all
    | inr (e, found) ↦
        rw (apply_expiry, found)
          (insert-AllParsed key (record e { expire_at = t }) m
            (unfold cached in rw found at (all key)) all)
  ]

  if-AllParsed :
      (b : Bool) (m m' : Dict Entry)
      → AllParsed ext m
      → AllParsed ext m'
      → AllParsed ext (if b then m else m')
  if-AllParsed true m m' h h' = h
  if-AllParsed false m m' h h' = h'

  apply_line-AllParsed :
      (line : Text) (m : Dict Entry) → AllParsed ext m → AllParsed ext (apply_line ext line m)
  unfolding apply_line apply_record
  apply_line-AllParsed line m all = elim (Option-cases (ext.decode_record line)) [
    | inl e ↦ rw (apply_line, e) all
    | inr (r, e) ↦
        rw (apply_line, e)
          (if-AllParsed _ _ _ (apply_set-AllParsed r (decode_record_vector ext r.vector) m all) (
            if-AllParsed _ _ _ (erase-AllParsed r.key m all) (
              if-AllParsed _ _ _ (apply_expiry-AllParsed r.key r.expire_at m all)
                (if-AllParsed _ _ _ (apply_expiry-AllParsed r.key none m all) all))))
  ]

  apply_lines-AllParsed :
      (lines : List Text) (m : Dict Entry)
      → AllParsed ext m
      → AllParsed ext (apply_lines ext lines m)
  unfolding apply_lines
  apply_lines-AllParsed [] m all = all
  apply_lines-AllParsed (line ∷ lines) m all =
      apply_lines-AllParsed lines _ (apply_line-AllParsed line m all)

  pub replay_text-AllParsed :
      (text : Text) (m : Dict Entry) → AllParsed ext m → AllParsed ext (replay_text ext text m)
  unfolding replay_text
  replay_text-AllParsed text m all = apply_lines-AllParsed (lines_of text) m all

  pub nil-AllParsed : AllParsed ext []
  nil-AllParsed k = rw (lookup-nil {V = Entry} k) tt
