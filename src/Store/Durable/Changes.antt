-- ===== src/Store/Durable/Changes.antt =====
-- The same change on what the files give and in memory: each record that a command logs, against
-- what the command does to the entries.
use torii_db.Base.{
  insert, ℤ, Text, codes, text_eq, Dict, true, false, Option, none, some, [], lookup, erase, ◌≡◌,
  refl, sym, arith, ◌∙◌,
}
use torii_db.External.{External}
use torii_db.Record.{Record}
use torii_db.Store.Db.{Io}
use torii_db.Store.Durable.{view, Same, Agree, CodecLaws}
use torii_db.Store.Entry.{Entry, is_expired, set_value, detect_type}
use torii_db.Store.Replay.{
  replayed_entry, apply_set, apply_expiry, apply_record, decode_record_vector,
}
use torii_db.Store.Set.{written_entry, with_cache, set_entry}
use torii_db.Store.Set.Laws.{with_cache-same}
use mathlib.Core.Path.{subst}
use torii_db.Store.Durable.Agreement.{Agree-insert, Agree-erase, Same-live, view-expire_at}

module _ (ext : External) where
  -- The record that `addToAOF` makes.
  abbrev pub made : Io → Text → Text → Text → Option ℤ → Record
  made io command key value t = record {
    timestamp = io.stamp;
    command = command;
    key = key;
    value = value;
    expire_at = t;
    vector = none;
  }

  pub replayed_entry-view :
      (r : Record) (o : Option Entry)
      → view (some (with_cache ext (replayed_entry ext r [] o)))
        ≡ some (r.value, detect_type ext r.value, r.expire_at, [])
  unfolding replayed_entry set_value
  replayed_entry-view r none = ground (arith, with_cache-same ext (replayed_entry ext r [] none))
  replayed_entry-view r (some e) =
      ground (arith, with_cache-same ext (replayed_entry ext r [] (some e)))

  set_entry-view :
      (now : ℤ) (key value : Text) (t : Option ℤ) (o : Option Entry)
      → view (some (set_entry ext now key value t o)) ≡ some (value, detect_type ext value, t, [])
  unfolding set_entry written_entry set_value
  set_entry-view now key value t none =
      ground (arith, with_cache-same ext (written_entry ext now key value t none))
  set_entry-view now key value t (some e) =
      ground (arith, with_cache-same ext (written_entry ext now key value t (some e)))

  entry_made-view :
      (e : Entry)
      → e.type ≡ detect_type ext e.value
      → e.vector ≡ []
      → view (some e) ≡ some (e.value, detect_type ext e.value, e.expire_at, [])
  entry_made-view e typed plain = ground arith

module _ (ext : External) (now : ℤ) (io : Io) where
  -- A SET record puts a like entry under its key.
  set_record-Agree :
      (key value : Text) (t : Option ℤ) (e : Entry) (m m' : Dict Entry)
      → view (some e) ≡ some (value, detect_type ext value, t, [])
      → Agree now m m'
      → Agree now (apply_record ext (made ext io (codes "SET") key value t) m) (insert key e m')
  unfolding apply_record apply_set decode_record_vector text_eq
  set_record-Agree key value t e m m' alike agree =
      Agree-insert now key _ _ m m'
        (replayed_entry-view ext (made ext io (codes "SET") key value t) (lookup key m) ∙ sym alike)
        agree

  pub set-Agree :
      (clock : ℤ) (key value : Text) (t : Option ℤ) (o : Option Entry) (m m' : Dict Entry)
      → Agree now m m'
      → Agree now
          (apply_record ext (made ext io (codes "SET") key value t) m)
          (insert key (set_entry ext clock key value t o) m')
  set-Agree clock key value t o m m' agree =
      set_record-Agree key value t _ m m' (set_entry-view ext clock key value t o) agree

  pub entry-Agree :
      (key : Text) (e : Entry) (m m' : Dict Entry)
      → e.type ≡ detect_type ext e.value
      → e.vector ≡ []
      → Agree now m m'
      → Agree now
          (apply_record ext (made ext io (codes "SET") key e.value e.expire_at) m)
          (insert key e m')
  entry-Agree key e m m' typed plain agree =
      set_record-Agree key e.value e.expire_at e m m' (entry_made-view ext e typed plain) agree

  pub del-Agree :
      (key : Text) (m m' : Dict Entry)
      → Agree now m m'
      → Agree now (apply_record ext (made ext io (codes "DEL") key [] none) m) (erase key m')
  unfolding apply_record text_eq
  del-Agree key m m' agree = Agree-erase now key m m' agree

  -- The commands whose records change an expiry.
  abbrev pub SetsExpiry : Text → Text → Text → Option ℤ → Type 0
  SetsExpiry command key value t =
      (m : Dict Entry)
      → apply_record ext (made ext io command key value t) m
        ≡ apply_expiry ext key t (lookup key m) m

  pub expiry-Agree :
      (command key value : Text) (t : Option ℤ) (e : Entry) (m m' : Dict Entry)
      → SetsExpiry command key value t
      → lookup key m' ≡ some e
      → is_expired e now ≡ false
      → Agree now m m'
      → Agree now
          (apply_record ext (made ext io command key value t) m)
          (insert key (record e { expire_at = t }) m')
  unfolding apply_expiry
  expiry-Agree command key value t e m m' applies found live agree =
      let (f, in_log, alike) =
        Same-live now (lookup key m) e live (subst (Same now (lookup key m)) found (agree key)) in
      rw (applies m) (rw in_log (Agree-insert now key _ _ m m' (view-expire_at f e t alike) agree))

  pub expire-SetsExpiry :
      (key value : Text) (t : Option ℤ) → SetsExpiry (codes "EXPIRE") key value t
  unfolding apply_record text_eq
  expire-SetsExpiry key value t m = refl

  pub expire_at-SetsExpiry :
      (key value : Text) (t : Option ℤ) → SetsExpiry (codes "EXPIREAT") key value t
  unfolding apply_record text_eq
  expire_at-SetsExpiry key value t m = refl

  pub persist-SetsExpiry : (key value : Text) → SetsExpiry (codes "PERSIST") key value none
  unfolding apply_record text_eq
  persist-SetsExpiry key value m = refl

-- The words that records begin with are ASCII.
module _ (ext : External) (laws : CodecLaws ext) where
  pub set_ok : ext.utf8_valid (codes "SET") ≡ true
  set_ok = laws.ascii (codes "SET") (omega arith)

  pub del_ok : ext.utf8_valid (codes "DEL") ≡ true
  del_ok = laws.ascii (codes "DEL") (omega arith)

  pub expire_ok : ext.utf8_valid (codes "EXPIRE") ≡ true
  expire_ok = laws.ascii (codes "EXPIRE") (omega arith)

  pub expire_at_ok : ext.utf8_valid (codes "EXPIREAT") ≡ true
  expire_at_ok = laws.ascii (codes "EXPIREAT") (omega arith)

  pub persist_ok : ext.utf8_valid (codes "PERSIST") ≡ true
  persist_ok = laws.ascii (codes "PERSIST") (omega arith)
