-- ===== src/Store/Ttl.antt =====
-- core/store/ttl.go
pub mod Laws
use torii_db.Base.{
  ℤ, pos, negsuc, ◌+ℤ◌, ◌-ℤ◌, wrap64, leb_ℤ, Text, codes, Option, none, some, [], lookup,
  if◌then◌else◌,
}
use torii_db.Base.Number.{format_int}
use torii_db.External.{External}
use torii_db.Store.Entry.{Entry}
use torii_db.Store.Db.{Db, Io, Outcome, not_exist}
use torii_db.Store.Aof.{add_to_aof}
use torii_db.Store.Set.{put_entry}
use torii_db.Store.Get.{get}

-- The time left: -1 for an entry that does not expire, -2 for a key that is not there. The clock is
-- read again behind `Get`.
unfoldable pub ttl_of : ℤ → Option Entry → ℤ
ttl_of later none = negsuc 1
ttl_of later (some e) = elim e.expire_at [
  | none ↦ negsuc 0
  | some t ↦
      let remaining = wrap64 (t -ℤ later) in if leb_ℤ remaining (pos 0) then negsuc 1 else remaining
]

unfoldable pub ttl : ℤ → ℤ → Text → Db → Db × ℤ
ttl now later key d = let (after, found) = get now key d in (after, ttl_of later found)

module _ (ext : External) where
  -- An existing entry gets an expiry, and the change is logged under a command.
  unfoldable pub set_expiry : Io → Text → Text → Text → Option ℤ → Db → Outcome
  set_expiry io command key value expire_at d = elim (lookup key d.entries) [
    | none ↦ (d, some not_exist)
    | some e ↦
        add_to_aof ext io command key value expire_at
          (put_entry key (record e { expire_at = expire_at }) d)
  ]

  -- `time.Now().Unix() + seconds`, in int64
  unfoldable pub expire : Io → ℤ → Text → ℤ → Db → Outcome
  expire io now key seconds d =
      set_expiry io (codes "EXPIRE") key (format_int seconds) (some (wrap64 (now +ℤ seconds))) d

  unfoldable pub expire_at : Io → Text → ℤ → Db → Outcome
  expire_at io key timestamp d =
      set_expiry io (codes "EXPIREAT") key (format_int timestamp) (some timestamp) d

  unfoldable pub persist : Io → Text → Db → Outcome
  persist io key d = set_expiry io (codes "PERSIST") key [] none d
