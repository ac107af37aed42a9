-- ===== src/Store/SetField/Expiry.antt =====
-- What SetField does with the expiry of an existing entry.
use torii_db.Base.{
  ℤ, Text, codes, true, Option, none, some, List, lookup, ◌≡◌, refl, arith, ◌∙◌, Option-cases, inl,
  inr,
}
use torii_db.External.{External}
use torii_db.Json.{Json}
use torii_db.Utils.{atov}
use torii_db.Store.Entry.{Entry, type_json, is_json, parse_and_cache, set_parsed}
use torii_db.Store.WalkSet.{WalkError, walk_set}
use torii_db.Store.Db.{Db, Io, Error}
use torii_db.Store.Aof.{add_to_aof}
use torii_db.Store.Set.{set_default, check_flag, put_entry, with_cache}
use torii_db.Store.Set.Laws.{with_cache-same}
use torii_db.Store.SetField.{
  Target, target_of, target_value, store_field, update_field, log_field, write_field, set_field,
}

-- An entry that holds the result of a walk, in its text and in its cache, and an expiry.
pub record IsWritten (ext : External) (w : Json × Option WalkError) (t : Option ℤ) (f : Entry)
    : Type 0 where
  pub walked : w.1 ≡ none
  pub marshalled : ext.json_marshal w.0 ≡ some f.value
  pub kept : f.parsed ≡ some w.0
  pub typed : f.type ≡ type_json
  pub same : f.expire_at ≡ t

module _ (ext : External) where
  store_field-IsWritten :
      (now : ℤ) (target : Target) (e : Entry) (w : Json × Option WalkError)
      → (store_field ext now none target e w).1 ≡ none
      → IsWritten ext w e.expire_at (store_field ext now none target e w).0
  unfolding store_field set_parsed
  store_field-IsWritten now target e (v, some err) h = absurd cc
  store_field-IsWritten now target e (v, none) h = elim (Option-cases (ext.json_marshal v)) [
    | inl bad ↦ absurd (ground arith)
    | inr (raw, good) ↦
        rw (store_field, good)
          (record { walked = refl; marshalled = good; kept = refl; typed = refl; same = refl })
  ]

  log_field-logged :
      (io : Io) (key : Text) (o : Entry × Option Error) (d : Db)
      → (log_field ext io key none o d).1 ≡ none
      → (o.1 ≡ none)
        × (log_field ext io key none o d
            ≡ add_to_aof ext io (codes "SET") key o.0.value none (put_entry key o.0 d))
  unfolding log_field
  log_field-logged io key (e, none) d h = (refl, refl)
  log_field-logged io key (e, some err) d h = cc

  -- SetField without an expiry on a key that holds JSON, when it returns no error, has written the
  -- value at the path into the object that the entry holds, or into an empty one where it holds
  -- none; it leaves the entry in memory as JSON with the text and the cache of that object and with
  -- the expiry that it had, and logs a SET record of that text without an expiry.
  pub set_field-expiry :
      (io : Io) (now : ℤ) (key value : Text) (sub_keys : List Text) (e : Entry) (d : Db)
      → lookup key d.entries ≡ some e
      → is_json e.type ≡ true
      → (set_field ext io now key sub_keys value set_default none d).1 ≡ none
      → (f : Entry) × (set_field ext io now key sub_keys value set_default none d
          ≡ add_to_aof ext io (codes "SET") key f.value none (put_entry key f d))
        × IsWritten ext
            (walk_set
              (target_value (target_of (parse_and_cache ext e).1))
              sub_keys
              (atov ext value))
            e.expire_at
            f
  unfolding set_field check_flag write_field update_field
  set_field-expiry io now key value sub_keys e d found json h =
      let (e1, cache) = parse_and_cache ext e in
      let target = target_of cache in
      let o =
        store_field ext now none target e1
          (walk_set (target_value target) sub_keys (atov ext value)) in
      let run : set_field ext io now key sub_keys value set_default none d
          ≡ log_field ext io key none o d =
        ground arith in
      let (fine, logged) = log_field-logged io key o d (rw run at h) in
      let kept : e1.expire_at ≡ e.expire_at =
        unfold with_cache in ground (arith, with_cache-same ext e) in
      (o.0, run ∙ logged, rw kept at (store_field-IsWritten now target e1 _ fine))
