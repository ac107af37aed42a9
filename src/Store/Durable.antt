-- ===== src/Store/Durable.antt =====
-- The append log as a client sees it: what replaying it gives, against what is in memory.
pub mod Agreement
pub mod Parsed
pub mod Append
pub mod Changes
pub mod Cleaning
pub mod Commands
pub mod Counters
pub mod Fields
pub mod FieldSteps
pub mod SetFields
pub mod Generation
pub mod Ready
pub mod Logged
pub mod Safe
pub mod Closing
pub mod Crash
pub mod Fragment
pub mod Failing
pub mod Atomic
pub mod History
pub mod Invariant
pub mod Restart
pub mod Snapshot
pub mod Torn
pub mod Upkeep
use torii_db.Base.{
  ℕ, ℤ, ◌≤ℤ◌, Text, Dict, Bool, true, false, Option, none, some, List, or_else, ◌≡◌, ◌⊎◌, lookup,
  All, ◌<◌, ◌++◌, [], ◌∷◌,
}
use torii_db.External.{External}
use torii_db.Record.{Record}
use torii_db.Store.Entry.{ValueType, Entry, is_expired}
use torii_db.Store.Db.{Db, file_get, text_of}
use torii_db.Store.Replay.{replay_text}
use torii_db.Store.Replay.Lines.{NoNewline, ends_line}

-- The fields that a log keeps of an entry; it does not keep both of its times.
abbrev pub view : Option Entry → Option (Text × ValueType × Option ℤ × List ℕ)
view none = none
view (some e) = some (e.value, e.type, e.expire_at, e.vector)

abbrev pub IsGone : ℤ → Option Entry → Type 0
IsGone now none = Unit {0}
IsGone now (some e) = is_expired e now ≡ true

-- Two entries have the same value, type, expiry and vector, or both have expired at `now` or are not
-- there.
abbrev pub Same : ℤ → Option Entry → Option Entry → Type 0
Same now a b = (view a ≡ view b) ⊎ (IsGone now a × IsGone now b)

abbrev pub Agree : ℤ → Dict Entry → Dict Entry → Type 0
Agree now m m' = (k : Text) → Same now (lookup k m) (lookup k m')

-- The text of the current log.
abbrev pub log_text : Db → Text
log_text d = text_of (file_get (or_else d.aof d.num) d.disk.logs)

-- The current log has whole lines, and replayed over `base`, what the files before it give, it
-- agrees with the memory.
pub record IsDurable (ext : External) (now : ℤ) (base : Dict Entry) (d : Db) : Type 0 where
  pub whole : ends_line (log_text d) ≡ true
  pub agree : Agree now (replay_text ext (log_text d) base) d.entries

-- What `encoding/json` promises of an AOFRecord: its text has no newline, and with a newline behind
-- it, it is read back, if its texts are valid UTF-8; and ASCII is valid UTF-8.
pub record CodecLaws (ext : External) : Type 0 where
  pub ascii : (s : Text) → All (λ c. c < 128) s → ext.utf8_valid s ≡ true
  pub one_line : (r : Record) → NoNewline (ext.encode_record r)
  pub decode-encode :
      (r : Record)
      → ext.utf8_valid r.command ≡ true
      → ext.utf8_valid (text_of r.vector) ≡ true
      → ext.utf8_valid r.key ≡ true
      → ext.utf8_valid r.value ≡ true
      → ext.decode_record (ext.encode_record r ++ 10 ∷ []) ≡ some r
