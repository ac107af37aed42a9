-- ===== src/Store/Durable/Safe.antt =====
-- The commands that write: each keeps a safe database safe, also where it starts a compaction.
use torii_db.Base.{
  ℕ, suc, ℤ, ◌≤ℤ◌, Text, codes, true, Option, none, some, List, [], ◌∷◌, lookup, insert, erase,
  is_some, ◌≡◌, refl, arith, Option-cases, Bool-cases, inl, inr, All,
}
use torii_db.External.{External}
use torii_db.Json.{Float}
use torii_db.Store.Aof.{add_to_aof-entries}
use torii_db.Store.Compact.{record_vector}
use torii_db.Store.Db.{Db, Io, Outcome}
use torii_db.Store.Del.{del, del_found, log_entry}
use torii_db.Store.Durable.{CodecLaws}
use torii_db.Store.Durable.Changes.{
  set-Agree, del-Agree, expiry-Agree, SetsExpiry, set_ok, del_ok, entry-Agree,
}
use torii_db.Store.Durable.Ready.{IsHealthy}
use torii_db.Store.Durable.Invariant.{
  set-IsWell, set_expiry-IsWell, erase-IsWell, insert-IsWell, lookup-IsStored,
}
use torii_db.Store.Durable.Snapshot.{IsStored}
use torii_db.Store.Entry.{Entry, detect_type, set_value}
use torii_db.Store.Incr.{incr, add_number, with_number, bump_entry, is_number}
use torii_db.Store.Set.{SetFlag, check_flag, set, put_entry}
use torii_db.Store.Set.Laws.{set-passed, set-stopped}
use torii_db.Store.Ttl.{set_expiry}
use torii_db.Store.Ttl.Laws.{set_expiry-found}
use torii_db.Store.Vector.{Base64Laws}
use torii_db.Utils.{vtoa_float}
use torii_db.Store.Durable.Logged.{IsLive, HasNoVector, IsSafe, logged-IsSafe}

module _ (ext : External) (laws : CodecLaws ext) (b64 : Base64Laws ext) (now : ℤ) where
  pub set-IsSafe :
      (io : Io) (clock : ℤ) (key value : Text) (flag : SetFlag) (t : Option ℤ) (d : Db)
      → IsHealthy io
      → io.sweep ≤ℤ now
      → ext.utf8_valid key ≡ true
      → ext.utf8_valid value ≡ true
      → IsSafe ext now d
      → IsSafe ext now (set ext io clock key value flag t d).0
  unfolding put_entry
  set-IsSafe io clock key value flag t d healthy before key_ok value_ok safe =
      elim (Option-cases (check_flag flag key (is_some (lookup key d.entries)))) [
        | inr (err, e) ↦ rw (set-stopped ext io clock key value flag t d err e) safe
        | inl e ↦
            let passed = set-passed ext io clock key value flag t d e in
            let well = set-IsWell ext laws io clock key value flag t d key_ok value_ok safe.well in
            rw passed (
              logged-IsSafe ext laws b64 now io (codes "SET") key value t d _ healthy before
                (set_ok ext laws) key_ok value_ok (rw passed at well)
                (λ base agree. set-Agree ext now io clock key value t _ base d.entries agree) safe)
      ]

  del_found-IsSafe :
      (io : Io) (key : Text) (d : Db)
      → IsHealthy io
      → io.sweep ≤ℤ now
      → ext.utf8_valid key ≡ true
      → IsSafe ext now d
      → IsSafe ext now (del_found ext io key d)
  unfolding del_found
  del_found-IsSafe io key d healthy before key_ok safe =
      logged-IsSafe ext laws b64 now io (codes "DEL") key [] none d (erase key d.entries) healthy
        before (del_ok ext laws) key_ok (laws.ascii [] tt)
        (rw add_to_aof-entries (erase-IsWell ext laws key d.entries safe.well))
        (λ base agree. del-Agree ext now io key base d.entries agree) safe

  pub del-IsSafe :
      (env : ℕ → Io) (keys : List Text) (d : Db)
      → ((n : ℕ) → IsHealthy (env n))
      → ((n : ℕ) → (env n).sweep ≤ℤ now)
      → All (λ key. ext.utf8_valid key ≡ true) keys
      → IsSafe ext now d
      → IsSafe ext now (del ext env keys d).0
  unfolding del
  del-IsSafe env [] d healthy before ok safe = safe
  del-IsSafe env (key ∷ keys) d healthy before (ok, oks) safe =
      elim (Option-cases (lookup key d.entries)) [
        | inl e ↦ rw (e, del) (del-IsSafe env keys d healthy before oks safe)
        | inr (f, e) ↦
            rw (e, del)
              (del-IsSafe (λ n. env (suc n)) keys (del_found ext (env 0) key d)
                (λ n. healthy (suc n)) (λ n. before (suc n)) oks
                (del_found-IsSafe (env 0) key d (healthy 0) (before 0) ok safe))
      ]

  -- EXPIRE, EXPIREAT and PERSIST, where the key is missing or its entry has not expired.
  pub set_expiry-IsSafe :
      (io : Io) (command key value : Text) (t : Option ℤ) (d : Db)
      → IsHealthy io
      → io.sweep ≤ℤ now
      → SetsExpiry ext now io command key value t
      → ext.utf8_valid command ≡ true
      → ext.utf8_valid key ≡ true
      → ext.utf8_valid value ≡ true
      → IsLive now (lookup key d.entries)
      → IsSafe ext now d
      → IsSafe ext now (set_expiry ext io command key value t d).0
  unfolding put_entry set_expiry
  set_expiry-IsSafe io command key value t d healthy before applies c k w live safe =
      elim (Option-cases (lookup key d.entries)) [
        | inl e ↦ rw (e, set_expiry) safe
        | inr (e, found) ↦
            let passed = set_expiry-found ext io command key value t e d found in
            let well = set_expiry-IsWell ext laws io command key value t d safe.well in
            rw passed (
              logged-IsSafe ext laws b64 now io command key value t d _ healthy before c k w
                (rw passed at well)
                (λ base agree.
                  expiry-Agree ext now io command key value t e base d.entries applies found
                    (rw found at live) agree)
                safe)
      ]

  -- An entry without a vector that is put under its key and logged.
  pub log_entry-IsSafe :
      (io : Io) (key : Text) (e : Entry) (d : Db)
      → IsHealthy io
      → io.sweep ≤ℤ now
      → ext.utf8_valid key ≡ true
      → ext.utf8_valid e.value ≡ true
      → e.key ≡ key
      → e.type ≡ detect_type ext e.value
      → e.vector ≡ []
      → IsSafe ext now d
      → IsSafe ext now (log_entry ext io key (e, none) d).0
  unfolding log_entry put_entry
  log_entry-IsSafe io key e d healthy before k w keyed typed plain safe =
      let stored : IsStored ext key e = record {
        keys = keyed;
        key_ok = rw keyed k;
        value_ok = w;
        vector_ok = rw plain (unfold record_vector in laws.ascii [] tt);
        types = typed;
        vectors = rw plain tt;
      } in
      logged-IsSafe ext laws b64 now io (codes "SET") key e.value e.expire_at d
        (insert key e d.entries) healthy before (set_ok ext laws) k w
        (rw add_to_aof-entries (insert-IsWell ext laws key e d.entries stored safe.well))
        (λ base agree. entry-Agree ext now io key e base d.entries typed plain agree) safe

  pub with_number-state : (f : Float) (o : Outcome) → (with_number f o).0 ≡ o.0
  unfolding with_number
  with_number-state f (d, none) = refl
  with_number-state f (d, some err) = refl

  -- INCR, where the entry has no vector.
  pub incr-IsSafe :
      (io : Io) (clock : ℤ) (key : Text) (delta : Float) (d : Db)
      → IsHealthy io
      → io.sweep ≤ℤ now
      → ext.utf8_valid key ≡ true
      → ((f : Float) → ext.utf8_valid (vtoa_float ext f) ≡ true)
      → HasNoVector (lookup key d.entries)
      → IsSafe ext now d
      → IsSafe ext now (incr ext io clock key delta d).0
  unfolding incr add_number
  incr-IsSafe io clock key delta d healthy before k floats plain safe =
      elim (Option-cases (lookup key d.entries)) [
        | inl e ↦ rw (e, incr) safe
        | inr (e, found) ↦ elim (Bool-cases (is_number e.type)) [
          | inr other ↦ rw (found, incr, other) safe
          | inl number ↦ elim (Option-cases (ext.parse_float e.value)) [
            | inl bad ↦ rw (found, incr, number, add_number, bad) safe
            | inr (f, read) ↦
                let sum = ext.float_add f delta in
                let bumped = bump_entry ext clock sum e in
                let run : (incr ext io clock key delta d).0
                    ≡ (log_entry ext io key (bumped, none) d).0 =
                  ground (arith, with_number-state sum (log_entry ext io key (bumped, none) d)) in
                rw run (
                  log_entry-IsSafe io key bumped d healthy before k
                    (unfold bump_entry set_value in floats sum)
                    (unfold bump_entry set_value in
                      (lookup-IsStored ext key e d.entries safe.well.stored found).keys)
                    (unfold bump_entry set_value in refl)
                    (unfold bump_entry set_value in rw found at plain) safe)
          ]
        ]
      ]
