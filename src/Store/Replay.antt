-- ===== src/Store/Replay.antt =====
-- `replayInto` of core/store/aof.go: the records of a file, applied to the entries.
pub mod Lines
use torii_db.Base.{
  ℕ, zero, suc, ◌+◌, ◌-◌, max, ℤ, Text, codes, text_eq, Dict, Bool, true, false, ◌&&◌, ◌||◌, Option,
  none, some, List, [], ◌∷◌, ◌++◌, lookup, insert, erase, length, ltb, ◌==◌, if◌then◌else◌,
}
use torii_db.External.{External}
use torii_db.Record.{Record}
use torii_db.Store.Entry.{Entry, detect_type, set_value}
use torii_db.Store.Vector.{decode_vector}
use torii_db.Store.Set.{new_entry, with_cache}

-- A byte in front of a file's lines.
abbrev pub cons_line : ℕ → List Text → List Text
cons_line c [] = (c ∷ []) ∷ []
cons_line c (l ∷ ls) = (c ∷ l) ∷ ls

-- What `reader.ReadBytes('\n')` returns, call by call: the lines with their newlines, and at the
-- end what stands behind the last newline, if anything does.
unfoldable pub lines_of : Text → List Text
lines_of [] = []
lines_of (c ∷ s) = let rest = lines_of s in if c == 10 then (10 ∷ []) ∷ rest else cons_line c rest

module _ (ext : External) where
  unfoldable pub decode_record_vector : Option Text → Option (List ℕ)
  decode_record_vector none = some []
  decode_record_vector (some s) = decode_vector ext s

  -- The entry of a SET record, before its cache is filled.
  unfoldable pub replayed_entry : Record → List ℕ → Option Entry → Entry
  replayed_entry r vec (some e) = record (set_value r.value e) {
    type = detect_type ext r.value;
    updated_at = some r.timestamp;
    expire_at = r.expire_at;
    vector = vec;
  }
  replayed_entry r vec none =
      record (set_value r.value
        (new_entry r.key (detect_type ext r.value) r.timestamp r.expire_at)) { vector = vec }

  unfoldable pub apply_set : Record → Option (List ℕ) → Dict Entry → Dict Entry
  apply_set r none m = m
  apply_set r (some vec) m = insert r.key (with_cache ext (replayed_entry r vec (lookup r.key m))) m

  unfoldable pub apply_expiry : Text → Option ℤ → Option Entry → Dict Entry → Dict Entry
  apply_expiry key t none m = m
  apply_expiry key t (some e) m = insert key (record e { expire_at = t }) m

  -- The `switch record.Command`.
  unfoldable pub apply_record : Record → Dict Entry → Dict Entry
  apply_record r m =
      if text_eq r.command (codes "SET")
      then apply_set r (decode_record_vector r.vector) m
      else if text_eq r.command (codes "DEL")
      then erase r.key m
      else if text_eq r.command (codes "EXPIRE") || text_eq r.command (codes "EXPIREAT")
      then apply_expiry r.key r.expire_at (lookup r.key m) m
      else if text_eq r.command (codes "PERSIST")
      then apply_expiry r.key none (lookup r.key m) m
      else m

  -- A line that is no record is skipped.
  unfoldable pub apply_line : Text → Dict Entry → Dict Entry
  apply_line line m = elim (ext.decode_record line) [ none ↦ m | some r ↦ apply_record r m ]

  unfoldable pub apply_lines : List Text → Dict Entry → Dict Entry
  apply_lines [] m = m
  apply_lines (line ∷ lines) m = apply_lines lines (apply_line line m)

  unfoldable pub replay_text : Text → Dict Entry → Dict Entry
  replay_text text m = apply_lines (lines_of text) m

  -- `replayInto`: `none` is a read that fails; a file that is not there is no error.
  unfoldable pub replay_into : Bool → Option Text → Dict Entry → Option (Dict Entry)
  replay_into readable none m = some m
  replay_into readable (some text) m = if readable then some (replay_text text m) else none
