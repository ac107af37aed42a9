-- ===== src/Store/Durable/FieldSteps.antt =====
-- DELFIELD and INCRFIELD keep a safe database safe: core/store/del.go and core/store/incrField.go.
use torii_db.Base.{
  Dict, ℤ, ◌≤ℤ◌, Text, true, Option, none, some, List, [], lookup, insert, lookup-insert, text_eq,
  text_eq_iff, ◌≡◌, refl, sym, ap, ◌∙◌, arith, Option-cases, Bool-cases, inl, inr,
}
use torii_db.External.{External}
use torii_db.Json.{Float}
use torii_db.Store.Entry.{
  Entry, ValueType, type_json, type_string, type_int, type_float, type_bool, type_date, is_json,
  is_expired, parse_and_cache, detect_type,
}
use torii_db.Store.Db.{Db, Io, Error}
use torii_db.Store.Del.{log_entry, del_field}
use torii_db.Store.Incr.{incr_parsed, incr_field}
use torii_db.Store.Durable.{view, Same, Agree, CodecLaws}
use torii_db.Store.Set.{put_entry}
use torii_db.Store.Durable.Invariant.{insert-IsWell, lookup-IsStored}
use torii_db.Store.Durable.Logged.{HasNoVector, IsSafe, unlogged-IsSafe}
use torii_db.Store.Durable.Ready.{IsHealthy}
use torii_db.Store.Durable.Safe.{log_entry-IsSafe, with_number-state}
use torii_db.Store.Durable.Snapshot.{IsStored}
use torii_db.Store.Vector.{Base64Laws}
use torii_db.Store.Durable.Fields.{MarshalLaws, IsFieldOf, del-Kept, incr-Kept}

IsGone-expiry :
    (now : ℤ) (a b : Entry)
    → a.expire_at ≡ b.expire_at
    → is_expired a now ≡ true
    → is_expired b now ≡ true
unfolding is_expired
IsGone-expiry now a b same gone = rw same at gone

Same-view :
    (now : ℤ) (o : Option Entry) (a b : Entry)
    → view (some a) ≡ view (some b)
    → a.expire_at ≡ b.expire_at
    → Same now o (some a)
    → Same now o (some b)
Same-view now o a b same expiry (inl alike) = inl (alike ∙ same)
Same-view now o a b same expiry (inr (gone, old)) = inr (gone, IsGone-expiry now a b expiry old)

Agree-put :
    (now : ℤ) (key : Text) (e after : Entry) (base m : Dict Entry)
    → lookup key m ≡ some e
    → view (some e) ≡ view (some after)
    → e.expire_at ≡ after.expire_at
    → Agree now base m
    → Agree now base (insert key after m)
Agree-put now key e after base m found same expiry agree k = elim (Bool-cases (text_eq key k)) [
  | inl here ↦
      let there : lookup k m ≡ some e = rw ((text_eq_iff key k).0 here) at found in
      let at_k : Same now (lookup k base) (lookup k m) = agree k in
      rw (lookup-insert key k after m, here)
        (Same-view now (lookup k base) e after same expiry (rw there at at_k))
  | inr other ↦ rw (lookup-insert key k after m, other) (agree k)
]

pub parse_and_cache-same :
    (ext : External) (e : Entry)
    → ((parse_and_cache ext e).0.key ≡ e.key)
      × ((parse_and_cache ext e).0.value ≡ e.value)
      × ((parse_and_cache ext e).0.type ≡ e.type)
      × ((parse_and_cache ext e).0.expire_at ≡ e.expire_at)
      × ((parse_and_cache ext e).0.vector ≡ e.vector)
unfolding parse_and_cache
parse_and_cache-same ext e = (ground arith, ground arith, ground arith, ground arith, ground arith)

pub is_json-type : (t : ValueType) → is_json t ≡ true → t ≡ type_json
is_json-type type_json h = refl
is_json-type type_string h = absurd cc
is_json-type type_int h = absurd cc
is_json-type type_float h = absurd cc
is_json-type type_bool h = absurd cc
is_json-type type_date h = absurd cc

module _ (ext : External) (laws : CodecLaws ext) (b64 : Base64Laws ext) (marshals : MarshalLaws ext)
    (now : ℤ) (io : Io) (healthy : IsHealthy io) (before : io.sweep ≤ℤ now) (key : Text)
    (key_ok : ext.utf8_valid key ≡ true) where
  pub log_kept-IsSafe :
      (e : Entry) (t : Entry × Option Error) (d : Db)
      → lookup key d.entries ≡ some e
      → e.vector ≡ []
      → IsFieldOf ext e t.0 t.1
      → IsSafe ext now d
      → IsSafe ext now (log_entry ext io key t d).0
  log_kept-IsSafe e (after, none) d found plain kept safe =
      let old = lookup-IsStored ext key e d.entries safe.well.stored found in
      log_entry-IsSafe ext laws b64 now io key after d healthy before key_ok kept.valid
        (kept.keys ∙ old.keys) kept.typed (kept.vectors ∙ plain) safe
  log_kept-IsSafe e (after, some error) d found plain kept safe =
      let old = lookup-IsStored ext key e d.entries safe.well.stored found in
      let value = kept.still error refl in
      let types = kept.types in
      let expiries = kept.expiries in
      let vectors = kept.vectors in
      let stored : IsStored ext key after = record {
        keys = kept.keys ∙ old.keys;
        key_ok = rw (kept.keys ∙ old.keys) key_ok;
        value_ok = kept.valid;
        vector_ok = rw vectors old.vector_ok;
        types = kept.typed;
        vectors = rw vectors old.vectors;
      } in
      unfold log_entry put_entry in
      unlogged-IsSafe ext laws b64 now d (insert key after d.entries)
        (insert-IsWell ext laws key after d.entries stored safe.well)
        (λ base agree.
          Agree-put now key e after base d.entries found (ground arith) (sym expiries) agree)
        safe

  module _ (d : Db) (plain : HasNoVector (lookup key d.entries)) (safe : IsSafe ext now d) where
    -- What the two commands do with an entry that they have found.
    found-IsSafe :
        (clock : ℤ) (sub_keys : List Text) (e : Entry) (t : Entry × Option Error)
        → lookup key d.entries ≡ some e
        → is_json e.type ≡ true
        → ((e1 : Entry)
            → e1.type ≡ type_json
            → e1.type ≡ detect_type ext e1.value
            → ext.utf8_valid e1.value ≡ true
            → e1 ≡ (parse_and_cache ext e).0
            → IsFieldOf ext e1 t.0 t.1)
        → IsSafe ext now (log_entry ext io key t d).0
    found-IsSafe clock sub_keys e t found json kept =
        let old = lookup-IsStored ext key e d.entries safe.well.stored found in
        let (k, v, ty, x, vec) = parse_and_cache-same ext e in
        let same = is_json-type e.type json in
        let f =
          kept (parse_and_cache ext e).0 (ty ∙ same)
            (ty ∙ (old.types ∙ ap (detect_type ext) (sym v))) (rw v old.value_ok) refl in
        log_kept-IsSafe e t d found (rw found at plain)
          (record {
            keys = f.keys ∙ k;
            vectors = f.vectors ∙ vec;
            expiries = f.expiries ∙ x;
            types = f.types ∙ ty;
            typed = f.typed;
            valid = f.valid;
            still = λ error h. f.still error h ∙ v;
          })
          safe

    pub del_field-IsSafe :
        (clock : ℤ) (sub_keys : List Text)
        → IsSafe ext now (del_field ext io clock key sub_keys d).0
    unfolding del_field
    del_field-IsSafe clock sub_keys = elim (Option-cases (lookup key d.entries)) [
      | inl e ↦ rw (del_field, e) safe
      | inr (e, found) ↦ elim (Bool-cases (is_json e.type)) [
        | inr other ↦ rw (del_field, found, other) safe
        | inl json ↦
            rw (del_field, found, json)
              (found-IsSafe clock sub_keys e _ found json
                (λ e1 j t v same. rw⁻¹ same (del-Kept ext marshals clock sub_keys e1 j t v _)))
      ]
    ]

    pub incr_field-IsSafe :
        (clock : ℤ) (sub_keys : List Text) (delta : Float)
        → IsSafe ext now (incr_field ext io clock key sub_keys delta d).0
    unfolding incr_field
    incr_field-IsSafe clock sub_keys delta = elim (Option-cases (lookup key d.entries)) [
      | inl e ↦ rw (incr_field, e) safe
      | inr (e, found) ↦ elim (Bool-cases (is_json e.type)) [
        | inr other ↦ rw (incr_field, found, other) safe
        | inl json ↦
            let written = incr_parsed ext clock sub_keys delta (parse_and_cache ext e) in
            let run : (incr_field ext io clock key sub_keys delta d).0
                ≡ (log_entry ext io key written.0 d).0 =
              rw (incr_field, found, json)
                (with_number-state ext laws b64 now written.1 (log_entry ext io key written.0 d)) in
            rw run (
              found-IsSafe clock sub_keys e written.0 found json (λ e1 j t v same.
                rw⁻¹ same (incr-Kept ext marshals clock sub_keys e1 j t v delta _)))
      ]
    ]
