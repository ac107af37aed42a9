-- ===== src/Store/Del.antt =====
-- core/store/del.go
pub mod Laws
use torii_db.Base.{
  ℕ, suc, ◌+◌, ℤ, Text, codes, Option, none, some, List, [], ◌∷◌, lookup, erase, if◌then◌else◌,
}
use torii_db.External.{External}
use torii_db.Json.{Json, null, obj}
use torii_db.Store.Entry.{Entry, is_json, parse_and_cache, set_parsed}
use torii_db.Store.WalkSet.{WalkError, walk_set}
use torii_db.Store.Db.{
  Db, Io, Error, Outcome, key_not_found, not_json_type, not_json_object, unmarshal_failed,
  marshal_failed, walk_failed,
}
use torii_db.Store.Aof.{add_to_aof}
use torii_db.Store.Set.{put_entry}

module _ (ext : External) where
  -- One key: the entry goes, and the log write's error is dropped.
  unfoldable pub del_found : Io → Text → Db → Db
  del_found io key d =
      (add_to_aof ext io (codes "DEL") key [] none (record d { entries = erase key d.entries })).0

  -- `env` gives the system's answers at each log write.
  unfoldable pub del : (ℕ → Io) → List Text → Db → Db × ℕ
  del env [] d = (d, 0)
  del env (key ∷ keys) d =
      let skipped = del env keys d in
      let (after, count) = del (λ n. env (suc n)) keys (del_found (env 0) key d) in
      elim (lookup key d.entries) [ none ↦ skipped | some e ↦ (after, count + 1) ]

  -- The entry with its parsed value written at a path, or the error, and the entry as the failed
  -- attempt leaves it: what was written into the parsed value stays in the cache.
  unfoldable pub store_parsed : ℤ → Entry → Json × Option WalkError → Entry × Option Error
  store_parsed now e (v, some err) = (record e { parsed = some v }, some (walk_failed err))
  store_parsed now e (v, none) = elim (set_parsed ext v e) [
    | none ↦ (record e { parsed = some v }, some marshal_failed)
    | some stored ↦ (record stored { updated_at = some now }, none)
  ]

  -- What `DelField` does once the value is parsed.
  unfoldable pub del_parsed : ℤ → List Text → Entry × Option Json → Entry × Option Error
  del_parsed now sub_keys (e, some (obj ms)) = store_parsed now e (walk_set (obj ms) sub_keys null)
  del_parsed now sub_keys (e, some v) = (e, some not_json_object)
  del_parsed now sub_keys (e, none) = (e, some unmarshal_failed)

  -- The entry goes back into the map, and is logged unless there was an error.
  unfoldable pub log_entry : Io → Text → Entry × Option Error → Db → Outcome
  log_entry io key (e, some err) d = (put_entry key e d, some err)
  log_entry io key (e, none) d =
      add_to_aof ext io (codes "SET") key e.value e.expire_at (put_entry key e d)

  unfoldable pub del_field : Io → ℤ → Text → List Text → Db → Outcome
  del_field io now key sub_keys d = elim (lookup key d.entries) [
    | none ↦ (d, some (key_not_found key))
    | some e ↦
        if is_json e.type
        then log_entry io key (del_parsed now sub_keys (parse_and_cache ext e)) d
        else (d, some not_json_type)
  ]
