-- ===== src/Daemon/Handler/Replies.antt =====
-- The store that a response comes with is the one that its operation left.
use torii_db.Base.{
  zero, suc, ℤ, pos, negsuc, Text, Option, none, some, List, ◌≡◌, refl, inl, inr, Option-cases,
}
use torii_db.Daemon.Handler.{
  got_reply, to_record, entries_reply, set_reply, ttl_reply, search_reply, prepend,
}
use torii_db.Daemon.Protocol.{Wire, KeyRecord, empty_response}
use torii_db.External.{External}
use torii_db.Store.Core.{Core}
use torii_db.Store.Db.{Error, Result, ok, failed}
use torii_db.Store.Entry.{Entry}

module _ (ext : External) (wire : Wire) where
  pub got_reply-core :
      (db : ℤ) (key : Text) (t : Core × Option Entry) → (got_reply ext wire db key t).0 ≡ t.0
  unfolding got_reply
  got_reply-core db key (c, none) = refl
  got_reply-core db key (c, some e) = elim (Option-cases (to_record ext wire db key e)) [
    | inl h ↦ rw (got_reply, h) refl
    | inr (r, h) ↦ rw (got_reply, h) refl
  ]

  pub got_reply-some :
      (db : ℤ) (key : Text) (e : Entry) (r : KeyRecord) (t : Core × Option Entry)
      → t.1 ≡ some e
      → to_record ext wire db key e ≡ some r
      → (got_reply ext wire db key t).1 ≡ record empty_response { entry = some r }
  unfolding got_reply
  got_reply-some db key e r (c, o) found shown = rw (found, got_reply, shown) refl

  pub entries_reply-core :
      (limit : ℤ) (t : Core × Option (List KeyRecord)) → (entries_reply ext wire limit t).0 ≡ t.0
  unfolding entries_reply
  entries_reply-core limit (c, none) = refl
  entries_reply-core limit (c, some rs) = refl

  pub set_reply-core : (t : Core × Option Error) → (set_reply ext wire t).0 ≡ t.0
  unfolding set_reply
  set_reply-core (c, none) = refl
  set_reply-core (c, some err) = refl

  pub ttl_reply-core : (t : Core × ℤ) → (ttl_reply ext wire t).0 ≡ t.0
  unfolding ttl_reply
  ttl_reply-core (c, pos n) = refl
  ttl_reply-core (c, negsuc zero) = refl
  ttl_reply-core (c, negsuc (suc zero)) = refl
  ttl_reply-core (c, negsuc (suc (suc n))) = refl

  pub search_reply-core : (t : Core × Result (List Text)) → (search_reply ext wire t).0 ≡ t.0
  unfolding search_reply
  search_reply-core (c, ok found) = refl
  search_reply-core (c, failed err) = refl

  pub prepend-core :
      (r : KeyRecord) (t : Core × Option (List KeyRecord)) → (prepend ext wire r t).0 ≡ t.0
  prepend-core r (c, none) = refl
  prepend-core r (c, some rs) = refl
