-- ===== src/Store/Durable/Invariant.antt =====
-- What every command keeps of the entries: each key stands once, and every entry can be logged.
use torii_db.Base.{
  ℕ, suc, ℤ, Text, text_eq, text_eq_iff, Dict, true, Option, some, List, [], ◌∷◌, lookup, insert,
  erase, NodupKeys, insert-NodupKeys, erase-NodupKeys, is_some, ◌≡◌, refl, arith, Option-cases,
  Bool-cases, inl, inr,
}
use mathlib.Core.Path.{subst}
use torii_db.External.{External}
use torii_db.Store.Entry.{Entry, is_expired}
use torii_db.Store.Db.{Db, Io}
use torii_db.Store.Aof.{add_to_aof-entries}
use torii_db.Store.Compact.{record_vector}
use torii_db.Store.Set.{SetFlag, check_flag, set, set_entry, put_entry}
use torii_db.Store.Set.Laws.{HasKey, set-passed, set-stopped, set_entry-IsEntryOf}
use torii_db.Store.Del.{del, del_found}
use torii_db.Store.Ttl.{set_expiry}
use torii_db.Store.Get.{get, read_entry}
use torii_db.Store.Durable.{CodecLaws}
use torii_db.Store.Durable.Snapshot.{IsStored, AllStored}

-- Each key stands once, and every entry can be logged.
pub record IsWell (ext : External) (m : Dict Entry) : Type 0 where
  pub nodup : NodupKeys m
  pub stored : AllStored ext m

AllStored-insert :
    (ext : External) (k : Text) (e : Entry) (m : Dict Entry)
    → IsStored ext k e
    → AllStored ext m
    → AllStored ext (insert k e m)
unfolding insert
AllStored-insert ext k e [] h s = (h, tt)
AllStored-insert ext k e ((j, f) ∷ m) h (g, s) = elim (Bool-cases (text_eq j k)) [
  | inl same ↦ rw same (h, s)
  | inr other ↦ rw other (g, AllStored-insert ext k e m h s)
]

AllStored-erase :
    (ext : External) (k : Text) (m : Dict Entry) → AllStored ext m → AllStored ext (erase k m)
unfolding erase
AllStored-erase ext k [] s = tt
AllStored-erase ext k ((j, f) ∷ m) (g, s) = elim (Bool-cases (text_eq j k)) [
  | inl same ↦ rw same (AllStored-erase ext k m s)
  | inr other ↦ rw other (g, AllStored-erase ext k m s)
]

pub lookup-IsStored :
    (ext : External) (k : Text) (e : Entry) (m : Dict Entry)
    → AllStored ext m
    → lookup k m ≡ some e
    → IsStored ext k e
unfolding lookup
lookup-IsStored ext k e [] s h = cc
lookup-IsStored ext k e ((j, f) ∷ m) (g, s) h = elim (Bool-cases (text_eq j k)) [
  | inl same ↦
      let j=k = text_eq_iff j k in
      let f=e : f ≡ e = ground arith in
      subst (λ (i : Text). IsStored ext i e) ((text_eq_iff j k).0 same)
        (subst (λ (x : Entry). IsStored ext j x) f=e g)
  | inr other ↦ lookup-IsStored ext k e m s (rw other at h)
]

HasKey-of_IsStored :
    (ext : External) (k : Text) (m : Dict Entry) → AllStored ext m → HasKey k (lookup k m)
HasKey-of_IsStored ext k m s = elim (Option-cases (lookup k m)) [
  | inl e ↦ rw e tt
  | inr (f, e) ↦ rw e (lookup-IsStored ext k f m s e).keys
]

module _ (ext : External) (laws : CodecLaws ext) where
  pub insert-IsWell :
      (k : Text) (e : Entry) (m : Dict Entry)
      → IsStored ext k e
      → IsWell ext m
      → IsWell ext (insert k e m)
  insert-IsWell k e m h w = record {
    nodup = insert-NodupKeys k e m w.nodup;
    stored = AllStored-insert ext k e m h w.stored;
  }

  pub erase-IsWell : (k : Text) (m : Dict Entry) → IsWell ext m → IsWell ext (erase k m)
  erase-IsWell k m w = record {
    nodup = erase-NodupKeys k m w.nodup;
    stored = AllStored-erase ext k m w.stored;
  }

  set_entry-IsStored :
      (now : ℤ) (key value : Text) (t : Option ℤ) (o : Option Entry)
      → ext.utf8_valid key ≡ true
      → ext.utf8_valid value ≡ true
      → HasKey key o
      → IsStored ext key (set_entry ext now key value t o)
  set_entry-IsStored now key value t o key_ok value_ok has =
      let is = set_entry-IsEntryOf ext now key value t o has in
      record {
        keys = is.keys;
        key_ok = rw is.keys key_ok;
        value_ok = rw is.values value_ok;
        vector_ok = rw is.vectors (unfold record_vector in laws.ascii [] tt);
        types = rw (is.types, is.values) refl;
        vectors = rw is.vectors tt;
      }

  -- SET with any flag, error or not, keeps each key once and every entry fit to be logged (stored
  -- under its own key, with the type that its value has, valid UTF-8 and a vector of 32-bit words),
  -- if the key and the value are valid UTF-8 and so is ASCII.
  pub set-IsWell :
      (io : Io) (now : ℤ) (key value : Text) (flag : SetFlag) (t : Option ℤ) (d : Db)
      → ext.utf8_valid key ≡ true
      → ext.utf8_valid value ≡ true
      → IsWell ext d.entries
      → IsWell ext (set ext io now key value flag t d).0.entries
  unfolding put_entry
  set-IsWell io now key value flag t d key_ok value_ok w =
      elim (Option-cases (check_flag flag key (is_some (lookup key d.entries)))) [
        | inr (err, e) ↦ rw (set-stopped ext io now key value flag t d err e) w
        | inl e ↦ rw (set-passed ext io now key value flag t d e) (
            rw add_to_aof-entries (
              insert-IsWell key _ d.entries
                (set_entry-IsStored now key value t (lookup key d.entries) key_ok value_ok
                  (HasKey-of_IsStored ext key d.entries w.stored))
                w))
      ]

  -- DEL of any list of keys, whatever the log writes return, keeps each key once and every entry
  -- fit to be logged.
  pub del-IsWell :
      (env : ℕ → Io) (keys : List Text) (d : Db)
      → IsWell ext d.entries
      → IsWell ext (del ext env keys d).0.entries
  unfolding del del_found
  del-IsWell env [] d w = w
  del-IsWell env (key ∷ keys) d w = elim (Option-cases (lookup key d.entries)) [
    | inl e ↦ rw (e, del) (del-IsWell env keys d w)
    | inr (f, e) ↦
        rw (e, del)
          (del-IsWell (λ n. env (suc n)) keys _
            (rw add_to_aof-entries (erase-IsWell key d.entries w)))
  ]

  -- The change that EXPIRE, EXPIREAT and PERSIST make, error or not, keeps each key once and every
  -- entry fit to be logged.
  pub set_expiry-IsWell :
      (io : Io) (command key value : Text) (t : Option ℤ) (d : Db)
      → IsWell ext d.entries
      → IsWell ext (set_expiry ext io command key value t d).0.entries
  unfolding set_expiry put_entry
  set_expiry-IsWell io command key value t d w = elim (Option-cases (lookup key d.entries)) [
    | inl e ↦ rw (e, set_expiry) w
    | inr (f, e) ↦
        let s = lookup-IsStored ext key f d.entries w.stored e in
        rw (e, set_expiry)
          (rw add_to_aof-entries (
            insert-IsWell key _ d.entries
              (record {
                keys = s.keys;
                key_ok = s.key_ok;
                value_ok = s.value_ok;
                vector_ok = s.vector_ok;
                types = s.types;
                vectors = s.vectors;
              })
              w))
  ]

  pub get-IsWell :
      (now : ℤ) (key : Text) (d : Db) → IsWell ext d.entries → IsWell ext (get now key d).0.entries
  unfolding get read_entry
  get-IsWell now key d w = elim (Option-cases (lookup key d.entries)) [
    | inl e ↦ rw (e, read_entry) w
    | inr (f, e) ↦ elim (Bool-cases (is_expired f now)) [
      | inl gone ↦ rw (e, read_entry, gone) (erase-IsWell key d.entries w)
      | inr live ↦ rw (e, read_entry, live) w
    ]
  ]
