-- ===== src/Store/Ttl/Laws.antt =====
-- EXPIRE, PERSIST and what TTL then says.
use torii_db.Base.{
  ℕ, ◌<◌, ◌≤◌, ◌^◌, ◌+◌, ℤ, pos, negsuc, ◌+ℤ◌, ◌-ℤ◌, wrap64, wrap64_of_IsInt64, IsInt64, leb_ℤ,
  Text, codes, text_eq, text_eq_refl, true, false, Option, none, some, [], lookup, lookup-insert,
  if◌then◌else◌, ◌≡◌, arith, ◌∙◌,
}
use torii_db.Base.Number.{format_int}
use torii_db.External.{External}
use torii_db.Store.Entry.{Entry, is_expired}
use torii_db.Store.Db.{Db, Io}
use torii_db.Store.Aof.{add_to_aof, add_to_aof-entries}
use torii_db.Store.Set.{put_entry}
use torii_db.Store.Get.{get, read_entry}
use torii_db.Store.Ttl.{ttl_of, ttl, set_expiry, expire, persist}

add-sub_back : (now : ℤ) (n : ℕ) → now +ℤ pos n -ℤ now ≡ pos n
unfolding ◌+ℤ◌ ◌-ℤ◌
add-sub_back now n = ground arith

later-leb : (now : ℤ) (n : ℕ) → 0 < n → leb_ℤ (now +ℤ pos n) now ≡ false
unfolding ◌+ℤ◌
later-leb now n p = ground arith

overflow-leb :
    (a n : ℕ)
    → a < 2 ^ 63
    → n < 2 ^ 63
    → 2 ^ 63 ≤ a + n
    → leb_ℤ (wrap64 (pos a +ℤ pos n)) (pos a) ≡ true
unfolding ◌+ℤ◌ wrap64
overflow-leb a n p q h = ground arith

module _ (ext : External) (io : Io) where
  pub set_expiry-found :
      (command key value : Text) (t : Option ℤ) (e : Entry) (d : Db)
      → lookup key d.entries ≡ some e
      → set_expiry ext io command key value t d
        ≡ add_to_aof ext io command key value t (put_entry key (record e { expire_at = t }) d)
  unfolding set_expiry
  set_expiry-found command key value t e d h = ground arith

  pub lookup-set_expiry :
      (command key value j : Text) (t : Option ℤ) (e : Entry) (d : Db)
      → lookup key d.entries ≡ some e
      → lookup j (set_expiry ext io command key value t d).0.entries
        ≡ (if text_eq key j then some (record e { expire_at = t }) else lookup j d.entries)
  unfolding set_expiry put_entry
  lookup-set_expiry command key value j t e d h =
      rw (h, set_expiry) (rw add_to_aof-entries (lookup-insert key j _ d.entries))

  ttl-read :
      (now later t : ℤ) (key : Text) (e : Entry) (d : Db)
      → lookup key d.entries ≡ some (record e { expire_at = some t })
      → leb_ℤ t now ≡ false
      → (ttl now later key d).1 ≡ ttl_of later (some (record e { expire_at = some t }))
  unfolding ttl get read_entry is_expired
  ttl-read now later t key e d h live = rw h (rw live)

  -- TTL at the second of an EXPIRE of an existing key by a positive number of seconds gives that
  -- number back, if it and the resulting time are in the range of int64, whatever the log write
  -- returned.
  pub ttl-expire :
      (now : ℤ) (key : Text) (seconds : ℕ) (e : Entry) (d : Db)
      → lookup key d.entries ≡ some e
      → 0 < seconds
      → IsInt64 (pos seconds)
      → IsInt64 (now +ℤ pos seconds)
      → (ttl now now key (expire ext io now key (pos seconds) d).0).1 ≡ pos seconds
  unfolding expire
  ttl-expire now key seconds e d h p fits sum =
      let t = now +ℤ pos seconds in
      let same = wrap64_of_IsInt64 t sum in
      let found =
        lookup-set_expiry (codes "EXPIRE") key (format_int (pos seconds)) key (some (wrap64 t)) e d
          h in
      ttl-read now now (wrap64 t) key e _ (rw (found, text_eq_refl))
        (rw same (later-leb now seconds p))
      ∙ unfold ttl_of in
        rw (same, add-sub_back now seconds)
          (rw (wrap64_of_IsInt64 (pos seconds) fits) (ground arith))

  -- After PERSIST of an existing key TTL answers -1 at any time, whatever the log write returned.
  pub ttl-persist :
      (now later : ℤ) (key : Text) (e : Entry) (d : Db)
      → lookup key d.entries ≡ some e
      → (ttl now later key (persist ext io key d).0).1 ≡ negsuc 0
  unfolding persist ttl get read_entry is_expired ttl_of
  ttl-persist now later key e d h =
      rw (lookup-set_expiry (codes "PERSIST") key [] key none e d h, text_eq_refl)

  -- If the time and the seconds of an EXPIRE of an existing key are in the range of int64 and not
  -- negative, but their sum is not, GET at that same second no longer finds the key.
  pub get-expire_overflow :
      (now : ℕ) (key : Text) (seconds : ℕ) (e : Entry) (d : Db)
      → lookup key d.entries ≡ some e
      → now < 2 ^ 63
      → seconds < 2 ^ 63
      → 2 ^ 63 ≤ now + seconds
      → (get (pos now) key (expire ext io (pos now) key (pos seconds) d).0).1 ≡ none
  unfolding expire get read_entry is_expired
  get-expire_overflow now key seconds e d h p q over =
      let t = wrap64 (pos now +ℤ pos seconds) in
      rw
        (
          lookup-set_expiry (codes "EXPIRE") key (format_int (pos seconds)) key (some t) e d h,
          text_eq_refl,
        )
        (rw (overflow-leb now seconds p q over))
