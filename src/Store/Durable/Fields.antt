-- ===== src/Store/Durable/Fields.antt =====
-- What DELFIELD and INCRFIELD keep of an entry, done or failed: core/store/del.go and core/store/incrField.go.
use torii_db.Base.{
  ℤ, Text, true, Option, none, some, List, [], ◌∷◌, ◌≡◌, refl, sym, ◌∙◌, Option-cases, Bool-cases,
  inl, inr,
}
use torii_db.External.{External}
use torii_db.Json.{
  Json, Float, Members, is_container, member_get, null, bool, int, num, str, arr, obj,
}
use torii_db.Store.Entry.{Entry, type_json, set_parsed, detect_type}
use torii_db.Store.WalkSet.{WalkError, walk_set, set_last}
use torii_db.Store.Db.{Error, Result, ok, failed}
use torii_db.Store.Del.{store_parsed, del_parsed}
use torii_db.Store.Incr.{incr_object, incr_parsed}

-- What `json.Marshal` promises of an object: its text is valid UTF-8, and is told as JSON.
pub record MarshalLaws (ext : External) : Type 0 where
  pub objects :
      (ms : Members) (raw : Text)
      → ext.json_marshal (obj ms) ≡ some raw
      → (detect_type ext raw ≡ type_json) × (ext.utf8_valid raw ≡ true)

abbrev pub IsObject : Json → Type 0
IsObject v = (ms : Members) × (v ≡ obj ms)

-- What a write at a path, done or failed, keeps of an entry.
pub record IsFieldOf (ext : External) (old e : Entry) (err : Option Error) : Type 0 where
  pub keys : e.key ≡ old.key
  pub vectors : e.vector ≡ old.vector
  pub expiries : e.expire_at ≡ old.expire_at
  pub types : e.type ≡ old.type
  pub typed : e.type ≡ detect_type ext e.value
  pub valid : ext.utf8_valid e.value ≡ true
  pub still : (error : Error) → err ≡ some error → e.value ≡ old.value

module _ (ext : External) (marshals : MarshalLaws ext) where
  store_parsed-IsFieldOf :
      (now : ℤ) (e : Entry) (v : Json) (walk : Option WalkError)
      → IsObject v
      → e.type ≡ type_json
      → e.type ≡ detect_type ext e.value
      → ext.utf8_valid e.value ≡ true
      → IsFieldOf ext e (store_parsed ext now e (v, walk)).0 (store_parsed ext now e (v, walk)).1
  unfolding store_parsed set_parsed
  store_parsed-IsFieldOf now e v (some err) object json typed valid = record {
    keys = refl;
    vectors = refl;
    expiries = refl;
    types = refl;
    typed = typed;
    valid = valid;
    still = λ error k. refl;
  }
  store_parsed-IsFieldOf now e v none (ms, same) json typed valid =
      elim (Option-cases (ext.json_marshal v)) [
        | inl none_there ↦
            rw (store_parsed, none_there)
              (record {
                keys = refl;
                vectors = refl;
                expiries = refl;
                types = refl;
                typed = typed;
                valid = valid;
                still = λ error k. refl;
              })
        | inr (raw, there) ↦
            let (detected, utf8) = marshals.objects ms raw (rw same at there) in
            rw (store_parsed, there)
              (record {
                keys = refl;
                vectors = refl;
                expiries = refl;
                types = refl;
                typed = json ∙ sym detected;
                valid = utf8;
                still = λ error k. absurd cc;
              })
      ]

set_last-IsObject :
    (ms : Members) (last : Text) (value : Json) → IsObject (set_last (obj ms) last value).0
unfolding set_last
set_last-IsObject ms last null = (_, refl)
set_last-IsObject ms last (bool b) = (_, refl)
set_last-IsObject ms last (num f) = (_, refl)
set_last-IsObject ms last (int n) = (_, refl)
set_last-IsObject ms last (str s) = (_, refl)
set_last-IsObject ms last (arr xs) = (_, refl)
set_last-IsObject ms last (obj xs) = (_, refl)

pub walk_set-IsObject :
    (ms : Members) (keys : List Text) (value : Json) → IsObject (walk_set (obj ms) keys value).0
unfolding walk_set
walk_set-IsObject ms [] value = (ms, refl)
walk_set-IsObject ms (last ∷ []) value = set_last-IsObject ms last value
walk_set-IsObject ms (field ∷ next_field ∷ rest) value = elim (Option-cases (member_get field ms)) [
  | inl e ↦ rw (walk_set, e) (_, refl)
  | inr (next, e) ↦ elim (Bool-cases (is_container next)) [
    | inl inside ↦ rw (walk_set, e, inside) (_, refl)
    | inr other ↦ rw (walk_set, e, other) (_, refl)
  ]
]

-- A write that changes nothing but the cache
pub untouched :
    (ext : External) (e : Entry) (error : Error)
    → e.type ≡ detect_type ext e.value
    → ext.utf8_valid e.value ≡ true
    → IsFieldOf ext e e (some error)
untouched ext e error typed valid = record {
  keys = refl;
  vectors = refl;
  expiries = refl;
  types = refl;
  typed = typed;
  valid = valid;
  still = λ err k. refl;
}

module _ (ext : External) (marshals : MarshalLaws ext) (now : ℤ) (sub_keys : List Text) (e : Entry)
    (json : e.type ≡ type_json) (typed : e.type ≡ detect_type ext e.value)
    (valid : ext.utf8_valid e.value ≡ true) where
  abbrev Kept : Entry × Option Error → Type 0
  Kept t = IsFieldOf ext e t.0 t.1

  store-Kept :
      (ms : Members) (value : Json)
      → Kept (store_parsed ext now e (walk_set (obj ms) sub_keys value))
  store-Kept ms value =
      store_parsed-IsFieldOf ext marshals now e _ (walk_set (obj ms) sub_keys value).1
        (walk_set-IsObject ms sub_keys value) json typed valid

  pub del-Kept : (cache : Option Json) → Kept (del_parsed ext now sub_keys (e, cache))
  unfolding del_parsed
  del-Kept (some (obj ms)) = store-Kept ms null
  del-Kept (some null) = untouched ext e _ typed valid
  del-Kept (some (bool b)) = untouched ext e _ typed valid
  del-Kept (some (num f)) = untouched ext e _ typed valid
  del-Kept (some (int n)) = untouched ext e _ typed valid
  del-Kept (some (str s)) = untouched ext e _ typed valid
  del-Kept (some (arr xs)) = untouched ext e _ typed valid
  del-Kept none = untouched ext e _ typed valid

  incr_object-Kept :
      (ms : Members) (r : Result Float) → Kept (incr_object ext now sub_keys ms e r).0
  unfolding incr_object
  incr_object-Kept ms (failed err) = untouched ext e err typed valid
  incr_object-Kept ms (ok total) = store-Kept ms (num total)

  pub incr-Kept :
      (delta : Float) (cache : Option Json) → Kept (incr_parsed ext now sub_keys delta (e, cache)).0
  unfolding incr_parsed
  incr-Kept delta (some (obj ms)) = incr_object-Kept ms _
  incr-Kept delta (some null) = untouched ext e _ typed valid
  incr-Kept delta (some (bool b)) = untouched ext e _ typed valid
  incr-Kept delta (some (num f)) = untouched ext e _ typed valid
  incr-Kept delta (some (int n)) = untouched ext e _ typed valid
  incr-Kept delta (some (str s)) = untouched ext e _ typed valid
  incr-Kept delta (some (arr xs)) = untouched ext e _ typed valid
  incr-Kept delta none = untouched ext e _ typed valid
