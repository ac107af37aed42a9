-- ===== src/Store/Set/Laws.antt =====
-- What SET leaves in memory, and what GET then reads.
use torii_db.Base.{
  ℤ, Text, codes, text_eq, text_eq_refl, false, Option, none, some, [], lookup, lookup-insert,
  is_some, if◌then◌else◌, ◌≡◌, arith,
}
use torii_db.External.{External}
use torii_db.Store.Entry.{Entry, is_past, is_expired, set_value, parse_and_cache, detect_type}
use torii_db.Store.Db.{Db, Io, Error}
use torii_db.Store.Aof.{add_to_aof, add_to_aof-entries}
use torii_db.Store.Set.{SetFlag, check_flag, written_entry, with_cache, set_entry, put_entry, set}
use torii_db.Store.Get.{get, read_entry}

-- What a client can tell of an entry, its times of change left out.
pub record IsEntryOf (ext : External) (e : Entry) (key value : Text) (expire_at : Option ℤ)
    : Type 0 where
  pub keys : e.key ≡ key
  pub values : e.value ≡ value
  pub types : e.type ≡ detect_type ext value
  pub expiries : e.expire_at ≡ expire_at
  pub vectors : e.vector ≡ []

abbrev pub HasKey : Text → Option Entry → Type 0
HasKey key none = Unit {0}
HasKey key (some e) = e.key ≡ key

module _ (ext : External) where
  pub with_cache-same :
      (e : Entry)
      → ((with_cache ext e).key ≡ e.key)
        × ((with_cache ext e).value ≡ e.value)
        × ((with_cache ext e).type ≡ e.type)
        × ((with_cache ext e).expire_at ≡ e.expire_at)
        × ((with_cache ext e).vector ≡ e.vector)
  unfolding with_cache parse_and_cache
  with_cache-same e = (ground arith, ground arith, ground arith, ground arith, ground arith)

  pub set_entry-IsEntryOf :
      (now : ℤ) (key value : Text) (expire_at : Option ℤ) (existing : Option Entry)
      → HasKey key existing
      → IsEntryOf ext (set_entry ext now key value expire_at existing) key value expire_at
  unfolding set_entry written_entry set_value
  set_entry-IsEntryOf now key value expire_at none h =
      ground (arith, with_cache-same (written_entry ext now key value expire_at none))
  set_entry-IsEntryOf now key value expire_at (some e) h =
      ground (arith, with_cache-same (written_entry ext now key value expire_at (some e)))

  pub set-passed :
      (io : Io) (now : ℤ) (key value : Text) (flag : SetFlag) (expire_at : Option ℤ) (d : Db)
      → check_flag flag key (is_some (lookup key d.entries)) ≡ none
      → set ext io now key value flag expire_at d
        ≡ add_to_aof ext io
            (codes "SET")
            key
            value
            expire_at
            (put_entry key (set_entry ext now key value expire_at (lookup key d.entries)) d)
  unfolding set
  set-passed io now key value flag expire_at d h = ground arith

  pub set-stopped :
      (io : Io) (now : ℤ) (key value : Text) (flag : SetFlag) (expire_at : Option ℤ) (d : Db)
      (err : Error)
      → check_flag flag key (is_some (lookup key d.entries)) ≡ some err
      → set ext io now key value flag expire_at d ≡ (d, some err)
  unfolding set
  set-stopped io now key value flag expire_at d err h = ground arith

  -- After a SET that its flag lets through, the key holds the written entry and every other key
  -- what it held before, whatever the log write returned.
  pub lookup-set :
      (io : Io) (now : ℤ) (key value : Text) (flag : SetFlag) (expire_at : Option ℤ) (d : Db)
      (j : Text)
      → check_flag flag key (is_some (lookup key d.entries)) ≡ none
      → lookup j (set ext io now key value flag expire_at d).0.entries ≡ (
          if text_eq key j
          then some (set_entry ext now key value expire_at (lookup key d.entries))
          else lookup j d.entries)
  unfolding set put_entry
  lookup-set io now key value flag expire_at d j h =
      rw (h, set) (rw add_to_aof-entries (lookup-insert key j _ d.entries))

  read_entry-live :
      (later : ℤ) (key : Text) (e : Entry) (d : Db)
      → is_past e.expire_at later ≡ false
      → (read_entry later key (some e) d).1 ≡ some e
  unfolding read_entry is_expired
  read_entry-live later key e d h = rw h

  -- GET after a SET that its flag lets through reads an entry with the key, value, detected type
  -- and expiry of that SET and no vector, unless that expiry has passed, whatever the log write
  -- returned; the entry found under the key before, if any, must carry that key.
  pub get-set :
      (io : Io) (now later : ℤ) (key value : Text) (flag : SetFlag) (expire_at : Option ℤ) (d : Db)
      → HasKey key (lookup key d.entries)
      → check_flag flag key (is_some (lookup key d.entries)) ≡ none
      → is_past expire_at later ≡ false
      → (e : Entry) × ((get later key (set ext io now key value flag expire_at d).0).1 ≡ some e)
        × IsEntryOf ext e key value expire_at
  unfolding get
  get-set io now later key value flag expire_at d has free live =
      let e = set_entry ext now key value expire_at (lookup key d.entries) in
      let is = set_entry-IsEntryOf now key value expire_at (lookup key d.entries) has in
      (
        e,
        rw (lookup-set io now key value flag expire_at d key free, text_eq_refl)
            (read_entry-live later key e _ (rw is.expiries live)),
        is,
      )
