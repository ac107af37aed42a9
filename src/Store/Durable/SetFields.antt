-- ===== src/Store/Durable/SetFields.antt =====
-- SETFIELD keeps a safe database safe where the record that it logs carries the expiry that the
-- entry has: core/store/setField.go.
use torii_db.Base.{
  ℤ, ◌≤ℤ◌, Text, true, Option, none, some, List, [], lookup, is_some, ◌≡◌, refl, sym, ap, ◌∙◌,
  Option-cases, Bool-cases, inl, inr,
}
use torii_db.External.{External}
use torii_db.Json.{Json, end, obj}
use torii_db.Utils.{atov}
use torii_db.Store.Entry.{Entry, type_json, is_json, parse_and_cache, set_parsed, detect_type}
use torii_db.Store.WalkSet.{WalkError, walk_set}
use torii_db.Store.Db.{Db, Io, Error, Result, ok, failed}
use torii_db.Store.Del.{log_entry}
use torii_db.Store.Set.{SetFlag, check_flag, new_entry}
use torii_db.Store.SetField.{
  Target, shared, fresh, target_of, target_value, leave_cache, renew, store_field, update_field,
  create_entry, log_field, log_created, write_field, set_field,
}
use torii_db.Store.Durable.{CodecLaws}
use torii_db.Store.Durable.Fields.{MarshalLaws, IsFieldOf, IsObject, walk_set-IsObject, untouched}
use torii_db.Store.Durable.FieldSteps.{log_kept-IsSafe, parse_and_cache-same}
use torii_db.Store.Durable.Invariant.{lookup-IsStored}
use torii_db.Store.Durable.Logged.{HasNoVector, IsSafe}
use torii_db.Store.Durable.Ready.{IsHealthy}
use torii_db.Store.Durable.Safe.{log_entry-IsSafe}
use torii_db.Store.Vector.{Base64Laws}

-- A missing entry, or one whose expiry is the given one once this has replaced it.
abbrev pub HasExpiry : Option ℤ → Option Entry → Type 0
HasExpiry t none = Unit {0}
HasExpiry t (some e) = renew t e.expire_at ≡ t

-- An entry that can be put under the key of another, with an expiry.
record IsReplacement (ext : External) (t : Option ℤ) (old e : Entry) : Type 0 where
  keys : e.key ≡ old.key
  vectors : e.vector ≡ old.vector
  expiries : e.expire_at ≡ renew t old.expire_at
  typed : e.type ≡ detect_type ext e.value
  valid : ext.utf8_valid e.value ≡ true

abbrev Replaced : External → Option ℤ → Entry → Entry × Option Error → Type 0
Replaced ext t old (e, none) = IsReplacement ext t old e
Replaced ext t old (e, some error) = IsFieldOf ext old e (some error)

target-IsObject : (target : Target) → IsObject (target_value target)
target-IsObject (shared ms) = (ms, refl)
target-IsObject fresh = (end, refl)

left-IsFieldOf :
    (ext : External) (target : Target) (v : Json) (e : Entry) (error : Error)
    → e.type ≡ detect_type ext e.value
    → ext.utf8_valid e.value ≡ true
    → IsFieldOf ext e (leave_cache target v e) (some error)
left-IsFieldOf ext (shared ms) v e error typed valid = record {
  keys = refl;
  vectors = refl;
  expiries = refl;
  types = refl;
  typed = typed;
  valid = valid;
  still = λ err k. refl;
}
left-IsFieldOf ext fresh v e error typed valid = untouched ext e error typed valid

store_field-Replaced :
    (ext : External) (marshals : MarshalLaws ext) (now : ℤ) (t : Option ℤ) (target : Target)
    (e : Entry) (v : Json) (walk : Option WalkError)
    → IsObject v
    → e.type ≡ detect_type ext e.value
    → ext.utf8_valid e.value ≡ true
    → Replaced ext t e (store_field ext now t target e (v, walk))
unfolding store_field set_parsed
store_field-Replaced ext marshals now t target e v (some error) object typed valid =
    left-IsFieldOf ext target v e _ typed valid
store_field-Replaced ext marshals now t target e v none (ms, same) typed valid =
    elim (Option-cases (ext.json_marshal v)) [
      | inl stuck ↦ rw (store_field, stuck) (left-IsFieldOf ext target v e _ typed valid)
      | inr (raw, there) ↦
          let (detected, utf8) = marshals.objects ms raw (rw same at there) in
          rw (store_field, there)
            (record {
              keys = refl;
              vectors = refl;
              expiries = refl;
              typed = sym detected;
              valid = utf8;
            })
    ]

update_field-Replaced :
    (ext : External) (marshals : MarshalLaws ext) (now : ℤ) (sub_keys : List Text) (value : Json)
    (t : Option ℤ) (e : Entry) (cache : Option Json)
    → e.type ≡ detect_type ext e.value
    → ext.utf8_valid e.value ≡ true
    → Replaced ext t e (update_field ext now sub_keys value t (e, cache))
unfolding update_field
update_field-Replaced ext marshals now sub_keys value t e cache typed valid =
    written (target_of cache)
  where
    written :
        (target : Target)
        → Replaced ext t e
            (store_field ext now t target e (walk_set (target_value target) sub_keys value))
    written (shared ms) =
        store_field-Replaced ext marshals now t (shared ms) e _ (walk_set (obj ms) sub_keys value).1
          (walk_set-IsObject ms sub_keys value) typed valid
    written fresh =
        store_field-Replaced ext marshals now t fresh e _ (walk_set (obj end) sub_keys value).1
          (walk_set-IsObject end sub_keys value) typed valid

renew-same : (t : Option ℤ) → renew t t ≡ t
renew-same none = refl
renew-same (some t) = refl

log_field-log_entry :
    (ext : External) (io : Io) (key : Text) (t : Option ℤ) (e : Entry) (d : Db)
    → e.expire_at ≡ t
    → log_field ext io key t (e, none) d ≡ log_entry ext io key (e, none) d
unfolding log_field log_entry
log_field-log_entry ext io key t e d same = rw same refl

log_created-log_entry :
    (ext : External) (io : Io) (key : Text) (t : Option ℤ) (e : Entry) (d : Db)
    → e.expire_at ≡ t
    → log_created ext io key t (ok e) d ≡ log_entry ext io key (e, none) d
unfolding log_created log_entry
log_created-log_entry ext io key t e d same = rw same refl

log_field-failed :
    (ext : External) (io : Io) (key : Text) (t : Option ℤ) (e : Entry) (error : Error) (d : Db)
    → log_field ext io key t (e, some error) d ≡ log_entry ext io key (e, some error) d
unfolding log_field log_entry
log_field-failed ext io key t e error d = refl

abbrev Created : External → Option ℤ → Entry → Result Entry → Type 0
Created ext t new (failed error) = Unit {0}
Created ext t new (ok e) = IsReplacement ext t new e

create_entry-Created :
    (ext : External) (marshals : MarshalLaws ext) (now : ℤ) (key : Text) (t : Option ℤ) (v : Json)
    (walk : Option WalkError)
    → IsObject v
    → Created ext t (new_entry key type_json now t) (create_entry ext now key t (v, walk))
unfolding create_entry set_parsed
create_entry-Created ext marshals now key t v (some error) object = tt
create_entry-Created ext marshals now key t v none (ms, same) =
    elim (Option-cases (ext.json_marshal v)) [
      | inl stuck ↦ rw (create_entry, stuck) tt
      | inr (raw, there) ↦
          let (detected, utf8) = marshals.objects ms raw (rw same at there) in
          rw (create_entry, there)
            (record {
              keys = refl;
              vectors = refl;
              expiries = sym (renew-same t);
              typed = sym detected;
              valid = utf8;
            })
    ]

module _ (ext : External) (laws : CodecLaws ext) (b64 : Base64Laws ext) (marshals : MarshalLaws ext)
    (now : ℤ) (io : Io) (healthy : IsHealthy io) (before : io.sweep ≤ℤ now) (key : Text)
    (key_ok : ext.utf8_valid key ≡ true) where
  log_update-IsSafe :
      (t : Option ℤ) (e old : Entry) (written : Entry × Option Error) (d : Db)
      → lookup key d.entries ≡ some e
      → (old.key ≡ e.key)
        × (old.value ≡ e.value)
        × (old.type ≡ e.type)
        × (old.expire_at ≡ e.expire_at)
        × (old.vector ≡ e.vector)
      → e.vector ≡ []
      → renew t e.expire_at ≡ t
      → Replaced ext t old written
      → IsSafe ext now d
      → IsSafe ext now (log_field ext io key t written d).0
  log_update-IsSafe t e old (after, none) d found (k, v, ty, x, vec) plain expiry done safe =
      let stored = lookup-IsStored ext key e d.entries safe.well.stored found in
      let same : after.expire_at ≡ t = done.expiries ∙ (rw x expiry) in
      rw (log_field-log_entry ext io key t after d same) (
        log_entry-IsSafe ext laws b64 now io key after d healthy before key_ok done.valid
          (done.keys ∙ k ∙ stored.keys) done.typed (done.vectors ∙ vec ∙ plain) safe)
  log_update-IsSafe t e old (after, some error) d found (k, v, ty, x, vec) plain expiry f safe =
      let kept : IsFieldOf ext e after (some error) = record {
        keys = f.keys ∙ k;
        vectors = f.vectors ∙ vec;
        expiries = f.expiries ∙ x;
        types = f.types ∙ ty;
        typed = f.typed;
        valid = f.valid;
        still = λ err h. f.still err h ∙ v;
      } in
      rw (log_field-failed ext io key t after error d) (
        log_kept-IsSafe ext laws b64 marshals now io healthy before key key_ok e (after, some error)
          d found plain kept safe)

  log_created-IsSafe :
      (t : Option ℤ) (clock : ℤ) (r : Result Entry) (d : Db)
      → Created ext t (new_entry key type_json clock t) r
      → IsSafe ext now d
      → IsSafe ext now (log_created ext io key t r d).0
  unfolding log_created
  log_created-IsSafe t clock (failed error) d made safe = safe
  log_created-IsSafe t clock (ok e) d made safe =
      let same : e.expire_at ≡ t = made.expiries ∙ renew-same t in
      rw (log_created-log_entry ext io key t e d same) (
        log_entry-IsSafe ext laws b64 now io key e d healthy before key_ok made.valid made.keys
          made.typed made.vectors safe)

  write_field-IsSafe :
      (clock : ℤ) (sub_keys : List Text) (v : Json) (t : Option ℤ) (o : Option Entry) (d : Db)
      → lookup key d.entries ≡ o
      → HasNoVector o
      → HasExpiry t o
      → IsSafe ext now d
      → IsSafe ext now (write_field ext io clock key sub_keys v t o d).0
  unfolding write_field
  write_field-IsSafe clock sub_keys v t none d found plain expiry safe =
      log_created-IsSafe t clock _ d
        (create_entry-Created ext marshals clock key t (walk_set (obj end) sub_keys v).0
          (walk_set (obj end) sub_keys v).1 (walk_set-IsObject end sub_keys v))
        safe
  write_field-IsSafe clock sub_keys v t (some e) d found plain expiry safe =
      elim (Bool-cases (is_json e.type)) [
        | inr other ↦ rw (write_field, other) safe
        | inl json ↦
            let old = lookup-IsStored ext key e d.entries safe.well.stored found in
            let same = parse_and_cache-same ext e in
            let (k, w, ty, x, vec) = same in
            rw (write_field, json)
              (log_update-IsSafe t e (parse_and_cache ext e).0 _ d found same plain expiry
                (update_field-Replaced ext marshals clock sub_keys v t (parse_and_cache ext e).0
                  (parse_and_cache ext e).1 (ty ∙ (old.types ∙ ap (detect_type ext) (sym w)))
                  (rw w old.value_ok))
                safe)
      ]

  -- SETFIELD, where the entry has no vector and its expiry is the one that is logged.
  pub set_field-IsSafe :
      (clock : ℤ) (sub_keys : List Text) (value : Text) (flag : SetFlag) (t : Option ℤ) (d : Db)
      → HasNoVector (lookup key d.entries)
      → HasExpiry t (lookup key d.entries)
      → IsSafe ext now d
      → IsSafe ext now (set_field ext io clock key sub_keys value flag t d).0
  unfolding set_field
  set_field-IsSafe clock sub_keys value flag t d plain expiry safe =
      elim (Option-cases (check_flag flag key (is_some (lookup key d.entries)))) [
        | inr (error, refused) ↦ rw (set_field, refused) safe
        | inl allowed ↦
            rw (set_field, allowed)
              (write_field-IsSafe clock sub_keys (atov ext value) t (lookup key d.entries) d refl
                plain expiry safe)
      ]
