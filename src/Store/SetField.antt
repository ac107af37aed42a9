-- ===== src/Store/SetField.antt =====
-- `SetField` of core/store/setField.go.
pub mod Expiry
use torii_db.Base.{ℤ, Text, codes, Option, none, some, List, lookup, is_some, if◌then◌else◌}
use torii_db.External.{External}
use torii_db.Json.{Json, Members, obj, end}
use torii_db.Utils.{atov}
use torii_db.Store.Entry.{Entry, type_json, is_json, parse_and_cache, set_parsed}
use torii_db.Store.WalkSet.{WalkError, walk_set}
use torii_db.Store.Db.{
  Db, Io, Error, Outcome, Result, ok, failed, not_json_type, marshal_failed, walk_failed,
}
use torii_db.Store.Aof.{add_to_aof}
use torii_db.Store.Set.{SetFlag, check_flag, new_entry, put_entry}

-- The map that a field is written into: the cached one, or a new one if the value is no map. Only
-- the cached one is shared with the entry.
pub data Target : Type 0 where
  shared : Members → Target
  fresh : Target

unfoldable pub target_of : Option Json → Target
target_of (some (obj ms)) = shared ms
target_of _ = fresh

abbrev pub target_value : Target → Json
target_value (shared ms) = obj ms
target_value fresh = obj end

-- What a write into the map leaves in the entry's cache.
abbrev pub leave_cache : Target → Json → Entry → Entry
leave_cache (shared ms) v e = record e { parsed = some v }
leave_cache fresh v e = e

-- `if expireAt != nil`
abbrev pub renew : Option ℤ → Option ℤ → Option ℤ
renew none old = old
renew (some t) old = some t

module _ (ext : External) where
  unfoldable pub store_field :
      ℤ → Option ℤ → Target → Entry → Json × Option WalkError → Entry × Option Error
  store_field now expire_at target e (v, some err) =
      (leave_cache target v e, some (walk_failed err))
  store_field now expire_at target e (v, none) = elim (set_parsed ext v e) [
    | none ↦ (leave_cache target v e, some marshal_failed)
    | some stored ↦ (
      record stored {
        type = type_json;
        updated_at = some now;
        expire_at = renew expire_at e.expire_at;
      },
      none,
    )
  ]

  unfoldable pub update_field :
      ℤ → List Text → Json → Option ℤ → Entry × Option Json → Entry × Option Error
  update_field now sub_keys value expire_at (e, cache) =
      let target = target_of cache in
      store_field now expire_at target e (walk_set (target_value target) sub_keys value)

  -- A new entry, or the error and no entry.
  unfoldable pub create_entry : ℤ → Text → Option ℤ → Json × Option WalkError → Result Entry
  create_entry now key expire_at (v, some err) = failed (walk_failed err)
  create_entry now key expire_at (v, none) =
      elim (set_parsed ext v (new_entry key type_json now expire_at)) [
        | none ↦ failed marshal_failed
        | some e ↦ ok e
      ]

  unfoldable pub log_field : Io → Text → Option ℤ → Entry × Option Error → Db → Outcome
  log_field io key expire_at (e, some err) d = (put_entry key e d, some err)
  log_field io key expire_at (e, none) d =
      add_to_aof ext io (codes "SET") key e.value expire_at (put_entry key e d)

  unfoldable pub log_created : Io → Text → Option ℤ → Result Entry → Db → Outcome
  log_created io key expire_at (failed err) d = (d, some err)
  log_created io key expire_at (ok e) d =
      add_to_aof ext io (codes "SET") key e.value expire_at (put_entry key e d)

  unfoldable pub write_field :
      Io → ℤ → Text → List Text → Json → Option ℤ → Option Entry → Db → Outcome
  write_field io now key sub_keys value expire_at none d =
      log_created io key expire_at
        (create_entry now key expire_at (walk_set (obj end) sub_keys value)) d
  write_field io now key sub_keys value expire_at (some e) d =
      if is_json e.type
      then log_field io key expire_at
          (update_field now sub_keys value expire_at (parse_and_cache ext e)) d
      else (d, some not_json_type)

  unfoldable pub set_field : Io → ℤ → Text → List Text → Text → SetFlag → Option ℤ → Db → Outcome
  set_field io now key sub_keys value flag expire_at d =
      let existing = lookup key d.entries in
      elim (check_flag flag key (is_some existing)) [
        | some err ↦ (d, some err)
        | none ↦ write_field io now key sub_keys (atov ext value) expire_at existing d
      ]
