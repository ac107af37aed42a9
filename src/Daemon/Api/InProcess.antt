-- ===== src/Daemon/Api/InProcess.antt =====
-- The methods of `Daemon` in the process of the store, in terms of the store's own operations.
use torii_db.Base.{
  ℤ, pos, negsuc, ℕ, zero, suc, ◌<◌, Text, codes, false, List, ◌∷◌, none, some, leb_ℤ, ◌≡◌, refl,
  arith, text_eq,
}
use torii_db.Daemon.Api.{
  Answer, value, call_error, answer_of, ask, deref, api_ttl, api_del, api_expire, api_count,
}
use torii_db.Daemon.Call.{remote}
use torii_db.Daemon.Pages.{answered}
use torii_db.Daemon.Handler.{
  dispatch, handle, handle_del, handle_ttl, handle_expire, expire_for, expire_each, count_reply,
  ttl_reply, dispatch_selected,
}
use torii_db.Daemon.Protocol.{
  Wire, Request, Response, not_found, remote_error, failure, plain_request, op_del, op_ttl,
  op_expire,
}
use torii_db.Daemon.Server.{Visit, local_call, returned_reply, result_of, returned}
use torii_db.External.{External}
use torii_db.Store.Core.{Core, on_db, select, max_db}
use torii_db.Store.Del.{del}
use torii_db.Store.Ttl.{ttl}

-- What is left of the store when a session has worked on a database.
abbrev pub merged : Core → Core → Core
merged c after = record c { dbs = after.dbs; jobs = after.jobs }

abbrev pub selected : ℕ → Core → Core
selected n c = record c { current = n }

-- -2 is the error of a missing key.
abbrev pub ttl_answer : ℤ → Answer ℤ
ttl_answer (negsuc (suc zero)) = call_error (remote (not_found (codes "key not found")))
ttl_answer seconds = value seconds

module _ (ext : External) (wire : Wire) (v : Visit) where
  pub select-valid : (n : ℕ) (c : Core) → n < max_db → select (pos n) c ≡ (selected n c, none)
  unfolding select
  select-valid n c h = ground arith

  -- The call of a request whose handler is known.
  pub local_call-valid :
      (n : ℕ) (req : Request) (c : Core) (t : Core × Response)
      → select req.db c ≡ (selected n c, none)
      → handle ext wire v.env v.ticks req (selected n c) ≡ (t.0, answered t.1)
      → local_call ext wire false v req c ≡ (merged c t.0, returned (result_of t.1))
  unfolding local_call dispatch returned_reply dispatch_selected
  local_call-valid n req c t there handled = rw (there, handled) refl

  pub api_del-local :
      (n : ℕ) (key : Text) (keys : List Text) (c : Core)
      → n < max_db
      → api_del (local_call ext wire false v) (pos n) (key ∷ keys) c ≡ (
          let (after, count) = on_db ext v.env (del ext v.env.io (key ∷ keys)) (selected n c) in
          (merged c after, value count))
  unfolding api_del api_count ask
  api_del-local n key keys c h =
      let req = record (plain_request op_del (pos n)) { keys = key ∷ keys } in
      rw
        (local_call-valid n req c (handle_del ext wire v.env req (selected n c))
          (select-valid n c h) (unfold handle text_eq in refl))
        (unfold handle_del count_reply result_of answer_of deref in refl)

  ttl_reply-answer :
      (c : Core) (t : Core × ℤ)
      → ◌≡◌ {A = Core × Answer ℤ}
          (
            merged c (ttl_reply ext wire t).0,
            answer_of (λ r. deref r.ttl) (returned (result_of (ttl_reply ext wire t).1)),
          )
          (merged c t.0, ttl_answer t.1)
  unfolding ttl_reply answer_of deref result_of failure remote_error text_eq
  ttl_reply-answer c (after, pos n) = refl
  ttl_reply-answer c (after, negsuc zero) = refl
  ttl_reply-answer c (after, negsuc (suc zero)) = refl
  ttl_reply-answer c (after, negsuc (suc (suc n))) = refl

  -- In the process of the store, TTL of a key of an existing database by way of a request and its
  -- response is the TTL of the store, with its -2 made the error of a missing key, and leaves the
  -- store as that does; it meets no nil pointer.
  pub api_ttl-local :
      (n : ℕ) (key : Text) (c : Core)
      → n < max_db
      → api_ttl (local_call ext wire false v) (pos n) key c ≡ (
          let (after, seconds) = on_db ext v.env (ttl v.env.now v.env.later key) (selected n c) in
          (merged c after, ttl_answer seconds))
  unfolding api_ttl ask
  api_ttl-local n key c h =
      let req = record (plain_request op_ttl (pos n)) { key = key } in
      rw
        (local_call-valid n req c (handle_ttl ext wire v.env req (selected n c))
          (select-valid n c h) (unfold handle text_eq in refl))
        (unfold handle_ttl in
          ttl_reply-answer c (on_db ext v.env (ttl v.env.now v.env.later key) (selected n c)))

  pub api_expire-local :
      (n m : ℕ) (key : Text) (keys : List Text) (c : Core)
      → n < max_db
      → api_expire (local_call ext wire false v) (pos n) (pos (suc m)) (key ∷ keys) c ≡ (
          let (after, count) =
            expire_each ext wire v.env v.ticks v.env.io (pos (suc m)) (key ∷ keys) (selected n c) in
          (merged c after, value count))
  unfolding api_expire api_count ask
  api_expire-local n m key keys c h =
      let positive : leb_ℤ (pos (suc m)) (pos 0) ≡ false = ground arith in
      let req = record (plain_request op_expire (pos n)) {
        keys = key ∷ keys;
        ttl = some (pos (suc m));
      } in
      rw
        (local_call-valid n req c (handle_expire ext wire v.env v.ticks req (selected n c))
          (select-valid n c h) (unfold handle text_eq in refl))
        (unfold handle_expire expire_for count_reply result_of answer_of deref in rw positive refl)
