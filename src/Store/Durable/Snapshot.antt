-- ===== src/Store/Durable/Snapshot.antt =====
-- A snapshot and a compaction: what their replay gives, against the memory.
use torii_db.Base.{
  ℕ, ◌+◌, ℤ, ◌≤ℤ◌, Text, codes, text_eq, text_eq_iff, Dict, true, Option, none, some, List, [], ◌∷◌,
  ◌++◌, All, lookup, insert, lookup-insert, NodupKeys, if◌then◌else◌, ◌≡◌, inl, inr, refl, ap,
  arith, ◌∙◌, Bool-cases, lookup-nil, ◌≢◌,
}
use torii_db.External.{External}
use torii_db.Record.{Record}
use torii_db.Store.Compact.{
  serialize, entry_record, record_vector, encode_line, compact, open_next_log, rename_snapshot,
  remove_temp, write_temp,
}
use torii_db.Store.Db.{text_of, Db, Io, file_get, file_get-file_put}
use torii_db.Store.Durable.Parsed.{AllParsed, nil-AllParsed, replay_text-AllParsed}
use torii_db.Store.Durable.{view, Same, Agree, CodecLaws, IsDurable, IsGone, log_text}
use torii_db.Store.Durable.Append.{apply_lines-append, replay_text-encode_line}
use torii_db.Store.Entry.{Entry, is_expired, detect_type, set_value}
use torii_db.Store.Replay.{
  lines_of, apply_lines, apply_record, apply_set, decode_record_vector, replay_text, replayed_entry,
}
use torii_db.Store.Replay.Lines.{ends_line, ends_line-append, lines_of-append}
use torii_db.Store.Set.{with_cache}
use torii_db.Store.Set.Laws.{with_cache-same}
use torii_db.Store.Vector.{Base64Laws, IsFloat32, decode_vector-encode_vector}

-- What every command leaves of an entry, if its texts are valid UTF-8.
pub record IsStored (ext : External) (k : Text) (e : Entry) : Type 0 where
  pub keys : e.key ≡ k
  pub key_ok : ext.utf8_valid e.key ≡ true
  pub value_ok : ext.utf8_valid e.value ≡ true
  pub vector_ok : ext.utf8_valid (text_of (record_vector ext e.vector)) ≡ true
  pub types : e.type ≡ detect_type ext e.value
  pub vectors : All IsFloat32 e.vector

abbrev pub AllStored : External → Dict Entry → Type 0
AllStored ext [] = Unit {0}
AllStored ext ((k, e) ∷ m) = IsStored ext k e × AllStored ext m

-- A live entry, or what there is without it.
live_or : ℤ → Option Entry → Option Entry → Option Entry
live_or now none base = base
live_or now (some e) base = if is_expired e now then base else some e

module _ (ext : External) where
  -- A compaction that moves on has written the snapshot, opened an empty log and kept the entries.
  pub compact-done :
      (io : Io) (d : Db)
      → file_get (d.num + 1) d.disk.logs ≡ none
      → (compact ext io d).1 ≡ none
      → (compact ext io d).0.num ≢ d.num
      → (text_of (file_get d.num (compact ext io d).0.disk.snaps)
          ≡ serialize ext io.sweep d.entries)
        × (log_text (compact ext io d).0 ≡ [])
        × ((compact ext io d).0.entries ≡ d.entries)
  unfolding compact open_next_log rename_snapshot remove_temp write_temp
  compact-done io d fresh ok moved =
      let buf = serialize ext io.sweep d.entries in
      let snap = file_get-file_put d.num d.num buf d.disk.snaps in
      let log = file_get-file_put (d.num + 1) (d.num + 1) [] d.disk.logs in
      (ground (arith, snap), ground (arith, log), ground arith)

  decode-record_vector :
      (vec : List ℕ)
      → Base64Laws ext
      → All IsFloat32 vec
      → decode_record_vector ext (record_vector ext vec) ≡ some vec
  unfolding decode_record_vector record_vector
  decode-record_vector [] laws h = refl
  decode-record_vector (v ∷ vec) laws h = decode_vector-encode_vector ext (v ∷ vec) laws h

  stored-view :
      (k : Text) (e : Entry) (o : Option Entry)
      → IsStored ext k e
      → view (some (with_cache ext (replayed_entry ext (entry_record ext e) e.vector o)))
        ≡ view (some e)
  unfolding replayed_entry set_value entry_record
  stored-view k e none s =
      let t = s.types in
      ground (arith, with_cache-same ext (replayed_entry ext (entry_record ext e) e.vector none))
  stored-view k e (some f) s =
      let t = s.types in
      ground
        (arith, with_cache-same ext (replayed_entry ext (entry_record ext e) e.vector (some f)))

  -- The record of an entry puts its like under its key.
  apply_record-entry_record :
      (k : Text) (e : Entry) (m : Dict Entry)
      → Base64Laws ext
      → IsStored ext k e
      → apply_record ext (entry_record ext e) m
        ≡ insert k
            (with_cache ext (replayed_entry ext (entry_record ext e) e.vector (lookup k m)))
            m
  unfolding apply_record apply_set entry_record text_eq
  apply_record-entry_record k e m laws s =
      rw (decode-record_vector e.vector laws s.vectors) (rw s.keys refl)

  -- Whole lines are replayed before what follows them.
  replay_text-append :
      (text rest : Text) (m : Dict Entry)
      → ends_line text ≡ true
      → replay_text ext (text ++ rest) m ≡ replay_text ext rest (replay_text ext text m)
  unfolding replay_text
  replay_text-append text rest m whole =
      rw (lines_of-append text rest whole)
        (apply_lines-append ext (lines_of text) (lines_of rest) m)

  encode_line-whole : (r : Record) → ends_line (encode_line ext r) ≡ true
  unfolding encode_line
  encode_line-whole r = ends_line-append [] (ext.encode_record r)

  pub replay_text-nil : (m : Dict Entry) → replay_text ext [] m ≡ m
  unfolding replay_text lines_of apply_lines
  replay_text-nil m = refl

  -- The first line of a snapshot is replayed first.
  replay_text-entry :
      (k : Text) (e : Entry) (rest : Text) (m : Dict Entry)
      → CodecLaws ext
      → Base64Laws ext
      → IsStored ext k e
      → replay_text ext (encode_line ext (entry_record ext e) ++ rest) m
        ≡ replay_text ext rest (
            insert k
              (with_cache ext (replayed_entry ext (entry_record ext e) e.vector (lookup k m)))
              m)
  replay_text-entry k e rest m laws b64 s =
      let r = entry_record ext e in
      let one : replay_text ext ([] ++ encode_line ext r) m
          ≡ apply_record ext r (replay_text ext [] m) =
        unfold entry_record in
        replay_text-encode_line ext [] r m laws
          (laws.ascii (codes "SET") (omega arith, (omega arith, (omega arith, tt)))) s.vector_ok
          s.key_ok s.value_ok refl in
      replay_text-append (encode_line ext r) rest m (encode_line-whole r)
      ∙ ap (λ b. replay_text ext rest b)
          (one
            ∙ (ap (apply_record ext r) (replay_text-nil m) ∙ apply_record-entry_record k e m b64 s))

  view-live_or :
      (now : ℤ) (o : Option Entry) (a b : Option Entry)
      → view a ≡ view b
      → view (live_or now o a) ≡ view (live_or now o b)
  unfolding live_or
  view-live_or now none a b h = h
  view-live_or now (some e) a b h = ground arith

  -- What the replay of a snapshot over some entries gives under a key.
  lookup-serialize :
      (now : ℤ) (m base : Dict Entry) (j : Text)
      → CodecLaws ext
      → Base64Laws ext
      → NodupKeys m
      → AllStored ext m
      → view (lookup j (replay_text ext (serialize ext now m) base))
        ≡ view (live_or now (lookup j m) (lookup j base))
  unfolding serialize lookup live_or
  lookup-serialize now [] base j laws b64 n s = unfold replay_text lines_of apply_lines in refl
  lookup-serialize now ((k, e) ∷ m) base j laws b64 (fresh, n) (s, ss) =
      elim (Bool-cases (is_expired e now)) [
        | inl gone ↦ ground (arith, lookup-serialize now m base j laws b64 n ss, text_eq_iff k j)
        | inr live ↦
            let f =
              with_cache ext (replayed_entry ext (entry_record ext e) e.vector (lookup k base)) in
            rw live (
              rw (replay_text-entry k e (serialize ext now m) base laws b64 s) (
                ground (
                  arith,
                  lookup-serialize now m (insert k f base) j laws b64 n ss,
                  text_eq_iff k j,
                  lookup-insert k j f base,
                  stored-view k e (lookup k base) s,
                  view-live_or now (lookup j m) (lookup j (insert k f base)) (lookup j base),
                )))
      ]

  live_or-Same :
      (now later : ℤ) (o a : Option Entry)
      → now ≤ℤ later
      → view a ≡ view (live_or now o none)
      → Same later a o
  unfolding live_or is_expired
  live_or-Same now later none a h same = inl same
  live_or-Same now later (some e) a h same = elim (Bool-cases (is_expired e now)) [
    | inr live ↦ inl (unfold is_expired in ground arith)
    | inl gone ↦ inr (gone_view a (ground arith), ground arith)
  ]
    where
      gone_view : (a : Option Entry) → view a ≡ none → IsGone later a
      gone_view none h = tt
      gone_view (some f) h = cc

  -- Replaying a snapshot gives back the entries it was made from, with values, types, expiries and
  -- vectors, for every reader at a time not before that of the snapshot, if each key stands once,
  -- every entry can be logged, and the record codec and base64 keep their laws; expired entries,
  -- which the snapshot leaves out, are gone for those readers anyway.
  pub serialize-Agree :
      (now later : ℤ) (m : Dict Entry)
      → CodecLaws ext
      → Base64Laws ext
      → NodupKeys m
      → AllStored ext m
      → now ≤ℤ later
      → Agree later (replay_text ext (serialize ext now m) []) m
  serialize-Agree now later m laws b64 n s h k = live_or-Same now later (lookup k m) _ h (
      lookup-serialize now m [] k laws b64 n s
      ∙ ap (λ o. view (live_or now (lookup k m) o)) (lookup-nil k))

  -- After a compaction that returned no error and moved to another log, the new log is whole, and
  -- it and the snapshot that was written replay to the keys that the memory has at `later`, with
  -- the same values, types, expiries and vectors, expired entries aside, and with what their values
  -- parse to in the caches of the JSON entries, if each key stands once, every entry can be logged,
  -- the clock at the snapshot is not after `later`, no file had the new log's name, and the record
  -- codec and base64 keep their laws; the times of creation and update are not compared.
  pub compact-IsDurable :
      (io : Io) (later : ℤ) (d : Db)
      → CodecLaws ext
      → Base64Laws ext
      → NodupKeys d.entries
      → AllStored ext d.entries
      → io.sweep ≤ℤ later
      → file_get (d.num + 1) d.disk.logs ≡ none
      → (compact ext io d).1 ≡ none
      → (compact ext io d).0.num ≢ d.num
      → let after = (compact ext io d).0 in
        let base = replay_text ext (text_of (file_get d.num after.disk.snaps)) [] in
        IsDurable ext later base after × AllParsed ext (replay_text ext (log_text after) base)
  compact-IsDurable io later d laws b64 n s h fresh ok moved =
      let (snap, log, same) = compact-done io d fresh ok moved in
      (
        record {
          whole = rw log refl;
          agree =
              rw (log, snap, same, replay_text-nil)
                (serialize-Agree io.sweep later d.entries laws b64 n s h);
        },
        replay_text-AllParsed ext _ _ (replay_text-AllParsed ext _ [] (nil-AllParsed ext)),
      )
