-- ===== src/Store/Set.antt =====
-- `Set` of core/store/set.go.
pub mod Laws
pub mod Flags
use torii_db.Base.{
  ℤ, Text, codes, Bool, true, false, Option, none, some, [], lookup, insert, is_some, if◌then◌else◌,
}
use torii_db.External.{External}
use torii_db.Store.Entry.{ValueType, Entry, set_value, is_json, parse_and_cache, detect_type}
use torii_db.Store.Db.{Db, Io, Error, Outcome, key_already_exists, key_not_found}
use torii_db.Store.Aof.{add_to_aof}

pub data SetFlag : Type 0 where
  set_default set_nx set_xx : SetFlag

-- The `switch flag` that `Set` and `SetField` begin with.
unfoldable pub check_flag : SetFlag → Text → Bool → Option Error
check_flag set_nx key true = some (key_already_exists key)
check_flag set_xx key false = some (key_not_found key)
check_flag _ key found = none

-- A new entry, with no value yet.
abbrev pub new_entry : Text → ValueType → ℤ → Option ℤ → Entry
new_entry key type now expire_at = record {
  key = key;
  value = [];
  type = type;
  created_at = now;
  updated_at = none;
  expire_at = expire_at;
  vector = [];
  parsed = none;
}

-- `db.data[key] = entry`; also how the model writes an entry that Go changes in place.
unfoldable pub put_entry : Text → Entry → Db → Db
put_entry key e d = record d { entries = insert key e d.entries }

module _ (ext : External) where
  -- The entry before its cache is filled: the existing one, written over, or a new one.
  unfoldable pub written_entry : ℤ → Text → Text → Option ℤ → Option Entry → Entry
  written_entry now key value expire_at (some existing) = record (set_value value existing) {
    type = detect_type ext value;
    updated_at = some now;
    expire_at = expire_at;
    vector = [];
  }
  written_entry now key value expire_at none =
      set_value value (new_entry key (detect_type ext value) now expire_at)

  -- `if vType == TypeJSON { entry.parseAndCache() }`
  unfoldable pub with_cache : Entry → Entry
  with_cache e = if is_json e.type then (parse_and_cache ext e).0 else e

  unfoldable pub set_entry : ℤ → Text → Text → Option ℤ → Option Entry → Entry
  set_entry now key value expire_at existing =
      with_cache (written_entry now key value expire_at existing)

  unfoldable pub set : Io → ℤ → Text → Text → SetFlag → Option ℤ → Db → Outcome
  set io now key value flag expire_at d =
      let existing = lookup key d.entries in
      elim (check_flag flag key (is_some existing)) [
        | some err ↦ (d, some err)
        | none ↦
            add_to_aof ext io (codes "SET") key value expire_at
              (put_entry key (set_entry now key value expire_at existing) d)
      ]
