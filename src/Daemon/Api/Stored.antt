-- ===== src/Daemon/Api/Stored.antt =====
-- `Set` and then `Get` of core/daemon/api.go, in the process of the store: from the JSON content of
-- a request to the record of a response.
use torii_db.Base.{
  ℤ, pos, ℕ, ◌<◌, Text, text_eq, false, Option, some, length, lookup, ◌≡◌, refl, ap,
}
use torii_db.Daemon.Api.{value, answer_of, ask, api_get, api_set, api_set_content}
use torii_db.Daemon.Api.InProcess.{merged, selected, select-valid, local_call-valid}
use torii_db.Daemon.Content.{stored, encode_content}
use torii_db.Daemon.Handler.{handle, handle_get, handle_set, store_content, to_record}
use torii_db.Daemon.Handler.Replies.{set_reply-core, got_reply-some}
use torii_db.Daemon.Protocol.{
  Wire, Request, KeyRecord, plain_request, empty_response, op_get, op_set,
}
use torii_db.Daemon.Server.{Visit, local_call, result_of}
use torii_db.External.{External}
use torii_db.Store.Core.{Core, on_db, max_db}
use torii_db.Store.Core.Session.{session_db, session_db-set}
use torii_db.Store.Entry.{Entry, is_past}
use torii_db.Store.Get.{get}
use torii_db.Store.Set.{set, set_default, check_flag}
use torii_db.Store.Set.Laws.{IsEntryOf, HasKey, get-set}

module _ (ext : External) (wire : Wire) where
  handle_set-store :
      (v : Visit) (req : Request) (text : Text) (c : Core)
      → encode_content wire req.content ≡ stored text
      → req.vector ≡ false
      → (handle_set ext wire v.env req c).0
        ≡ (on_db ext v.env
            (set ext (v.env.io 0) v.env.now req.key text set_default req.expire_at)
            c).0
  unfolding handle_set store_content
  handle_set-store v req text c encoded plain =
      rw (encoded, plain)
        (set_reply-core ext wire (
          on_db ext v.env (set ext (v.env.io 0) v.env.now req.key text set_default req.expire_at)
            c))

  api_set-store :
      (v : Visit) (n : ℕ) (key raw text : Text) (t : Option ℤ) (c : Core)
      → n < max_db
      → encode_content wire raw ≡ stored text
      → (api_set (local_call ext wire false v) (pos n) key (some raw) t c).0
        ≡ merged c
            (on_db ext v.env
              (set ext (v.env.io 0) v.env.now key text set_default t)
              (selected n c)).0
  unfolding api_set api_set_content ask
  api_set-store v n key raw text t c h encoded =
      let req = record (plain_request op_set (pos n)) {
        key = key;
        content = raw;
        vector = false;
        expire_at = t;
      } in
      rw
        (local_call-valid ext wire v n req c (handle_set ext wire v.env req (selected n c))
          (select-valid ext wire v n c h) (unfold handle text_eq in refl))
        (ap (merged c) (handle_set-store v req text (selected n c) encoded refl))

  api_get-record :
      (v : Visit) (n : ℕ) (key : Text) (e : Entry) (r : KeyRecord) (c : Core)
      → n < max_db
      → (get v.env.now key (session_db ext v.env (selected n c))).1 ≡ some e
      → to_record ext wire (pos n) key e ≡ some r
      → (api_get (local_call ext wire false v) (pos n) key c).1 ≡ value (some r)
  unfolding api_get ask
  api_get-record v n key e r c h found shown =
      let req = record (plain_request op_get (pos n)) { key = key } in
      let reply : (handle_get ext wire v.env req (selected n c)).1
          ≡ record empty_response { entry = some r } =
        unfold handle_get on_db in
        got_reply-some ext wire (pos n) key e r (on_db ext v.env (get v.env.now key) (selected n c))
          found shown in
      rw
        (local_call-valid ext wire v n req c (handle_get ext wire v.env req (selected n c))
          (select-valid ext wire v n c h) (unfold handle text_eq in refl))
        (unfold answer_of result_of in rw reply refl)

  -- In the process of the store, Get after Set of a JSON content under a key of an existing
  -- database, in whatever way its log write ends and whether or not the database was loaded before,
  -- returns the record of an entry with that key, the text that the content is stored as, its
  -- detected type, the given expiry and no vector, if the content is accepted, that record can be
  -- encoded, the expiry has not passed, and an entry found under the key before carries that key.
  pub api_get-api_set :
      (v w : Visit) (n : ℕ) (key raw text : Text) (t : Option ℤ) (c : Core)
      → n < max_db
      → n < length c.dbs
      → encode_content wire raw ≡ stored text
      → HasKey key (lookup key (session_db ext v.env (selected n c)).entries)
      → is_past t w.env.now ≡ false
      → (e : Entry) × IsEntryOf ext e key text t
        × ((r : KeyRecord)
            → to_record ext wire (pos n) key e ≡ some r
            → (api_get
                (local_call ext wire false w)
                (pos n)
                key
                (api_set (local_call ext wire false v) (pos n) key (some raw) t c).0).1
              ≡ value (some r))
  api_get-api_set v w n key raw text t c h there encoded has live =
      let d = session_db ext v.env (selected n c) in
      let (e, read, is) =
        get-set ext (v.env.io 0) v.env.now w.env.now key text set_default t d has
          (unfold check_flag in refl) live in
      let same =
        session_db-set ext v.env w.env (v.env.io 0) v.env.now key text t (selected n c) there in
      (
        e,
        is,
        λ r shown.
            rw (api_set-store v n key raw text t c h encoded)
              (api_get-record w n key e r _ h (unfold on_db in rw same read) shown),
      )
