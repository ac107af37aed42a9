-- ===== src/Store/Durable/Counters.antt =====
-- INCR leaves a log that replays to what it left in memory.
use torii_db.Base.{
  ℤ, Text, codes, Dict, true, none, some, [], lookup, ◌≡◌, refl, arith, Option-cases, Bool-cases,
  inl, inr,
}
use torii_db.External.{External}
use torii_db.Json.{Float}
use torii_db.Utils.{vtoa_float}
use torii_db.Store.Entry.{Entry, detect_type, set_value}
use torii_db.Store.Db.{Db, Io, Outcome, ok}
use torii_db.Store.Set.{put_entry}
use torii_db.Store.Del.{log_entry}
use torii_db.Store.Incr.{is_number, with_number, bump_entry, add_number, incr}
use torii_db.Store.Durable.{IsDurable, CodecLaws}
use torii_db.Store.Durable.Commands.{logged-IsDurable}
use torii_db.Store.Durable.Changes.{entry-Agree, set_ok}

with_number-ok :
    (f g : Float) (o : Outcome)
    → (with_number f o).1 ≡ ok g
    → (o.1 ≡ none) × ((with_number f o).0 ≡ o.0)
unfolding with_number
with_number-ok f g (d, none) h = (refl, refl)
with_number-ok f g (d, some err) h = cc

module _ (ext : External) (laws : CodecLaws ext) (now : ℤ) (base : Dict Entry) (io : Io) where
  -- An entry that is put under its key and logged.
  log_entry-IsDurable :
      (key : Text) (e : Entry) (d : Db)
      → ext.utf8_valid key ≡ true
      → ext.utf8_valid e.value ≡ true
      → e.type ≡ detect_type ext e.value
      → e.vector ≡ []
      → IsDurable ext now base d
      → (log_entry ext io key (e, none) d).1 ≡ none
      → (log_entry ext io key (e, none) d).0.num ≡ d.num
      → IsDurable ext now base (log_entry ext io key (e, none) d).0
  unfolding log_entry put_entry
  log_entry-IsDurable key e d key_ok value_ok typed plain durable h same =
      logged-IsDurable ext laws now base io (codes "SET") key e.value e.expire_at d _
        (set_ok ext laws) key_ok value_ok durable
        (entry-Agree ext now io key e _ d.entries typed plain durable.agree) h same

  -- If the current log has whole lines and agrees on replay with the memory at `now`, then so it does after an INCR that returned a number and started no compaction, on an
  -- entry without a vector, if the key and the printed numbers are valid UTF-8 and the record codec
  -- keeps its laws.
  pub incr-IsDurable :
      (clock : ℤ) (key : Text) (delta total : Float) (e : Entry) (d : Db)
      → ext.utf8_valid key ≡ true
      → ((f : Float) → ext.utf8_valid (vtoa_float ext f) ≡ true)
      → lookup key d.entries ≡ some e
      → e.vector ≡ []
      → IsDurable ext now base d
      → (incr ext io clock key delta d).1 ≡ ok total
      → (incr ext io clock key delta d).0.num ≡ d.num
      → IsDurable ext now base (incr ext io clock key delta d).0
  unfolding incr add_number
  incr-IsDurable clock key delta total e d key_ok floats_ok found plain durable h same =
      elim (Bool-cases (is_number e.type)) [
        | inr other ↦ absurd (ground arith)
        | inl number ↦ elim (Option-cases (ext.parse_float e.value)) [
          | inl bad ↦ absurd (ground arith)
          | inr (f, read) ↦
              let sum = ext.float_add f delta in
              let bumped = bump_entry ext clock sum e in
              let run : incr ext io clock key delta d
                  ≡ with_number sum (log_entry ext io key (bumped, none) d) =
                ground arith in
              let (fine, stored) =
                with_number-ok sum total (log_entry ext io key (bumped, none) d) (rw run at h) in
              rw (run, stored)
                (log_entry-IsDurable key bumped d key_ok
                  (unfold bump_entry set_value in floats_ok sum)
                  (unfold bump_entry set_value in refl) (unfold bump_entry set_value in plain)
                  durable fine (rw (run, stored) at same))
        ]
      ]
