-- ===== src/Store/Durable/Cleaning.antt =====
-- The timer's removal of expired entries, which is not logged.
use torii_db.Base.{
  ℤ, ◌≤ℤ◌, Text, text_eq_iff, Dict, Option, none, some, [], ◌∷◌, lookup, NodupKeys, if◌then◌else◌,
  ◌≡◌, refl, arith, Bool-cases, inl, inr,
}
use torii_db.External.{External}
use torii_db.Store.Entry.{Entry, is_expired}
use torii_db.Store.Db.{Db}
use torii_db.Store.Clean.{live_entries, clean_expired}
use torii_db.Store.Durable.{IsDurable, Same}
use torii_db.Store.Durable.Agreement.{Same-drop}

-- A live entry, or nothing.
unfoldable pub live : ℤ → Option Entry → Option Entry
live now none = none
live now (some e) = if is_expired e now then none else some e

pub lookup-live_entries :
    (now : ℤ) (k : Text) (m : Dict Entry)
    → NodupKeys m
    → lookup k (live_entries now m) ≡ live now (lookup k m)
unfolding live_entries lookup live
lookup-live_entries now k [] n = refl
lookup-live_entries now k ((j, e) ∷ m) (fresh, n) =
    ground (arith, lookup-live_entries now k m n, text_eq_iff j k)

pub Same-live_of :
    (clock now : ℤ) (a o : Option Entry) → clock ≤ℤ now → Same now a o → Same now a (live clock o)
unfolding live
Same-live_of clock now a none le h = h
Same-live_of clock now a (some e) le h = elim (Bool-cases (is_expired e clock)) [
  | inr stays ↦ rw stays h
  | inl gone ↦ rw gone (Same-drop now a e (unfold is_expired in ground arith) h)
]

-- The timer's removal of expired entries, which is not logged, keeps the lines of the log whole and
-- the agreement of the replayed log and the memory at `now`, if its clock is
-- not after `now` and each key stands once.
pub clean_expired-IsDurable :
    (ext : External) (clock now : ℤ) (base : Dict Entry) (d : Db)
    → clock ≤ℤ now
    → NodupKeys d.entries
    → IsDurable ext now base d
    → IsDurable ext now base (clean_expired clock d)
unfolding clean_expired
clean_expired-IsDurable ext clock now base d le n durable = record {
  whole = durable.whole;
  agree = λ k.
      rw (lookup-live_entries clock k d.entries n)
        (Same-live_of clock now _ (lookup k d.entries) le (durable.agree k));
}
