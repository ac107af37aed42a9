-- ===== src/Store/Durable/Commands.antt =====
-- Each acknowledged command leaves a log that replays to what it left in memory.
use torii_db.Base.{
  ℤ, Text, codes, Dict, true, false, Option, none, some, [], ◌∷◌, lookup, erase, is_some, ◌≡◌, inl,
  inr, Option-cases, ◌≤ℤ◌, Bool-cases,
}
use torii_db.Base.Number.{format_int}
use torii_db.External.{External}
use torii_db.Store.Aof.{add_to_aof, add_to_aof_with_vector, add_to_aof-entries}
use torii_db.Store.Compact.{record_vector, encode_line}
use torii_db.Store.Db.{Db, Io}
use torii_db.Store.Del.{del, del_found}
use torii_db.Store.Durable.{Agree, log_text, IsDurable, CodecLaws}
use torii_db.Store.Durable.Append.{replay_text-encode_line, write_aof-log}
use torii_db.Store.Entry.{Entry, is_expired}
use torii_db.Store.Get.{get, read_entry}
use torii_db.Store.Replay.{apply_expiry, apply_record, replay_text}
use torii_db.Store.Replay.Lines.{ends_line-append}
use torii_db.Store.Set.{SetFlag, check_flag, put_entry, set}
use torii_db.Store.Set.Laws.{set-passed, set-stopped}
use torii_db.Store.Ttl.{set_expiry, expire, persist}
use torii_db.Store.Ttl.Laws.{set_expiry-found}
use torii_db.Store.Durable.Agreement.{Agree-drop}
use torii_db.Store.Durable.Changes.{
  made, set-Agree, del-Agree, expiry-Agree, SetsExpiry, expire-SetsExpiry, persist-SetsExpiry,
  set_ok, del_ok, expire_ok, persist_ok,
}

module _ (ext : External) where
  -- A command that changes the entries and logs a record is durable if the record changes what
  -- the log gives in the same way.
  pub logged-IsDurable :
      (laws : CodecLaws ext) (now : ℤ) (base : Dict Entry) (io : Io) (command key value : Text)
      (t : Option ℤ) (d : Db) (m : Dict Entry)
      → ext.utf8_valid command ≡ true
      → ext.utf8_valid key ≡ true
      → ext.utf8_valid value ≡ true
      → IsDurable ext now base d
      → Agree now
          (apply_record ext (made ext io command key value t) (replay_text ext (log_text d) base))
          m
      → let o = add_to_aof ext io command key value t (record d { entries = m }) in
        o.1 ≡ none → o.0.num ≡ d.num → IsDurable ext now base o.0
  unfolding add_to_aof add_to_aof_with_vector record_vector
  logged-IsDurable laws now base io command key value t d m command_ok key_ok value_ok durable agree
        h same =
      let r = made ext io command key value t in
      let log = write_aof-log ext io r (record d { entries = m }) h same in
      record {
        whole = rw log (unfold encode_line in ends_line-append (log_text d) (ext.encode_record r));
        agree = rw log (
            rw
              (replay_text-encode_line ext (log_text d) r base laws command_ok (laws.ascii [] tt)
                key_ok value_ok durable.whole)
              (rw (add_to_aof-entries ext io command key value t (record d { entries = m }))
                agree));
      }

module _ (ext : External) (laws : CodecLaws ext) (now : ℤ) (base : Dict Entry) (io : Io) where
  -- If the current log has whole lines and, replayed over what the files before it give, agrees
  -- with the memory at `now`, then so it does after a SET with any flag,
  -- expiry and value that returned no error and started no compaction, if the key and the value are
  -- valid UTF-8 and the record codec keeps its laws.
  pub set-IsDurable :
      (clock : ℤ) (key value : Text) (flag : SetFlag) (t : Option ℤ) (d : Db)
      → ext.utf8_valid key ≡ true
      → ext.utf8_valid value ≡ true
      → IsDurable ext now base d
      → (set ext io clock key value flag t d).1 ≡ none
      → (set ext io clock key value flag t d).0.num ≡ d.num
      → IsDurable ext now base (set ext io clock key value flag t d).0
  unfolding put_entry
  set-IsDurable clock key value flag t d key_ok value_ok durable h same =
      elim (Option-cases (check_flag flag key (is_some (lookup key d.entries)))) [
        | inr (err, e) ↦ rw (set-stopped ext io clock key value flag t d err e) durable
        | inl e ↦
            let passed = set-passed ext io clock key value flag t d e in
            rw passed (
              logged-IsDurable ext laws now base io (codes "SET") key value t d _ (set_ok ext laws)
                key_ok value_ok durable
                (set-Agree ext now io clock key value t _ _ d.entries durable.agree)
                (rw passed at h) (rw passed at same))
      ]

  -- If the current log has whole lines and agrees on replay with the memory at `now`, then so it does after a DEL of one key whose log write would return no error and
  -- which started no compaction, if the record codec keeps its laws and the key is valid UTF-8.
  pub del-IsDurable :
      (key : Text) (d : Db)
      → ext.utf8_valid key ≡ true
      → IsDurable ext now base d
      → (add_to_aof ext io (codes "DEL") key [] none (record d { entries = erase key d.entries })).1
        ≡ none
      → (del ext (λ n. io) (key ∷ []) d).0.num ≡ d.num
      → IsDurable ext now base (del ext (λ n. io) (key ∷ []) d).0
  unfolding del del_found
  del-IsDurable key d key_ok durable h same = elim (Option-cases (lookup key d.entries)) [
    | inl e ↦ rw (e, del) durable
    | inr (f, e) ↦
        rw (e, del)
          (logged-IsDurable ext laws now base io (codes "DEL") key [] none d (erase key d.entries)
            (del_ok ext laws) key_ok (laws.ascii [] tt) durable
            (del-Agree ext now io key _ _ durable.agree) h (rw (e, del) at same))
  ]

  -- EXPIRE, EXPIREAT and PERSIST of a live key.
  expiry-IsDurable :
      (command key value : Text) (t : Option ℤ) (e : Entry) (d : Db)
      → SetsExpiry ext now io command key value t
      → ext.utf8_valid command ≡ true
      → ext.utf8_valid key ≡ true
      → ext.utf8_valid value ≡ true
      → lookup key d.entries ≡ some e
      → is_expired e now ≡ false
      → IsDurable ext now base d
      → (set_expiry ext io command key value t d).1 ≡ none
      → (set_expiry ext io command key value t d).0.num ≡ d.num
      → IsDurable ext now base (set_expiry ext io command key value t d).0
  unfolding put_entry apply_expiry
  expiry-IsDurable command key value t e d applies command_ok key_ok value_ok found live durable h
        same =
      let passed = set_expiry-found ext io command key value t e d found in
      rw passed (
        logged-IsDurable ext laws now base io command key value t d _ command_ok key_ok value_ok
          durable
          (expiry-Agree ext now io command key value t e _ d.entries applies found live
            durable.agree)
          (rw passed at h) (rw passed at same))

  -- If the current log has whole lines and agrees on replay with the memory at `now`, then so it does after an EXPIRE by any number of seconds on a key whose entry has not
  -- expired at `now`, where it returned no error and started no compaction, if the record codec
  -- keeps its laws and the key and the printed seconds are valid UTF-8.
  pub expire-IsDurable :
      (clock seconds : ℤ) (key : Text) (e : Entry) (d : Db)
      → ext.utf8_valid key ≡ true
      → ext.utf8_valid (format_int seconds) ≡ true
      → lookup key d.entries ≡ some e
      → is_expired e now ≡ false
      → IsDurable ext now base d
      → (expire ext io clock key seconds d).1 ≡ none
      → (expire ext io clock key seconds d).0.num ≡ d.num
      → IsDurable ext now base (expire ext io clock key seconds d).0
  unfolding expire
  expire-IsDurable clock seconds key e d key_ok value_ok =
      expiry-IsDurable (codes "EXPIRE") key _ _ e d (expire-SetsExpiry ext now io key _ _)
        (expire_ok ext laws) key_ok value_ok

  -- If the current log has whole lines and agrees on replay with the memory at `now`, then so it does after a PERSIST on a key whose entry has not expired at `now`, where
  -- it returned no error and started no compaction, if the record codec keeps its laws and the key
  -- is valid UTF-8.
  pub persist-IsDurable :
      (key : Text) (e : Entry) (d : Db)
      → ext.utf8_valid key ≡ true
      → lookup key d.entries ≡ some e
      → is_expired e now ≡ false
      → IsDurable ext now base d
      → (persist ext io key d).1 ≡ none
      → (persist ext io key d).0.num ≡ d.num
      → IsDurable ext now base (persist ext io key d).0
  unfolding persist
  persist-IsDurable key e d key_ok =
      expiry-IsDurable (codes "PERSIST") key [] none e d (persist-SetsExpiry ext now io key [])
        (persist_ok ext laws) key_ok (laws.ascii [] tt)

  -- GET, which may drop an expired entry from memory without logging it, keeps the lines of the log
  -- whole and the agreement of the replayed log and the memory at `now`, if
  -- its clock is not after `now`.
  pub get-IsDurable :
      (clock : ℤ) (key : Text) (d : Db)
      → clock ≤ℤ now
      → IsDurable ext now base d
      → IsDurable ext now base (get clock key d).0
  unfolding get read_entry
  get-IsDurable clock key d le durable = elim (Option-cases (lookup key d.entries)) [
    | inl e ↦ rw (e, read_entry) durable
    | inr (f, e) ↦ elim (Bool-cases (is_expired f clock)) [
      | inr live ↦ rw (e, read_entry, live) durable
      | inl gone ↦
          rw (e, read_entry, gone)
            (record {
              whole = durable.whole;
              agree = Agree-drop clock now key f _ d.entries le e gone durable.agree;
            })
    ]
  ]
