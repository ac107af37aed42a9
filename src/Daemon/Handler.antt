-- ===== src/Daemon/Handler.antt =====
-- core/daemon/handler.go: what each request does to the store, and its response.
pub mod Replies
pub mod Frame
use torii_db.Base.{
  ℕ, zero, suc, ◌+◌, ◌-◌, ◌*◌, ℤ, pos, negsuc, ◌+ℤ◌, leb_ℤ, ltb_ℤ, wrap64, max, Text, codes,
  text_eq, contains, to_lower, trim_space, Bool, true, false, not, ◌&&◌, ◌||◌, Option, none, some,
  List, [], ◌∷◌, ◌++◌, length, take, drop, is_empty, ltb, leb, ◌==◌, if◌then◌else◌, is_some,
}
use torii_db.Daemon.Content.{
  stored, refused, Stored, describe_content, encode_content, decode_content, marshal_content,
}
use torii_db.Daemon.Protocol.{
  Request, Response, KeyRecord, ListResult, Wire, empty_response, failure, kind_not_found,
  kind_bad_request, kind_no_embedder, kind_internal, op_get, op_entries, op_set, op_del, op_ttl,
  op_expire, op_keys, op_vsearch, op_embedder,
}
use torii_db.Daemon.Pages.{Reply, answered, crashed, page_reply}
use torii_db.External.{External}
use torii_db.Store.Core.{Core, Env, on_db, select, set_vector}
use torii_db.Store.Db.{Db, Error, no_embedder, Result, ok, failed, Io}
use torii_db.Store.Del.{del}
use torii_db.Store.Entry.{Entry, type_name}
use torii_db.Store.Get.{get}
use torii_db.Store.Scan.{keys, entry_time}
use torii_db.Store.Search.{Embedder, vsearch}
use torii_db.Store.Set.{set_default, set}
use torii_db.Store.Ttl.{ttl, expire}

abbrev pub default_limit : ℕ
default_limit = 100

-- `entryUnix`
unfoldable pub entry_unix : Entry → ℤ
entry_unix e = elim e.updated_at [ some t ↦ t | none ↦ e.created_at ]

-- A limit that is not positive is the default.
abbrev pub limit_or_default : ℤ → ℕ
limit_or_default (pos (suc n)) = suc n
limit_or_default _ = default_limit

abbrev bad_request : Text → Response
bad_request message = failure kind_bad_request message

-- The last `limit` elements.
unfoldable pub last_of {ℓ} : {A : Type ℓ} → ℕ → List A → List A
last_of limit xs = if ltb limit (length xs) then drop (length xs - limit) xs else xs

module _ (ext : External) (wire : Wire) where
  unfoldable pub vector_failure : Error → Response
  vector_failure no_embedder = failure kind_no_embedder (wire.describe no_embedder)
  vector_failure err = failure kind_internal (wire.describe err)

  -- `none` is the error of json.Marshal.
  unfoldable pub to_record : ℤ → Text → Entry → Option KeyRecord
  to_record db key e = elim (marshal_content wire (decode_content ext e.type e.value)) [
    | none ↦ none
    | some content ↦ some (record {
      db = db;
      key = key;
      type = type_name e.type;
      content = content;
      created_at = e.created_at;
      updated_at = e.updated_at;
      expire_at = e.expire_at;
    })
  ]

  abbrev encode_failed : Response
  encode_failed = failure kind_internal wire.marshal_failure

  pub got_reply : ℤ → Text → Core × Option Entry → Core × Response
  got_reply db key (c, none) = (c, failure kind_not_found (codes "key not found"))
  got_reply db key (c, some e) = elim (to_record db key e) [
    | none ↦ (c, encode_failed)
    | some r ↦ (c, record empty_response { entry = some r })
  ]

  unfoldable pub handle_get : Env → Request → Core → Core × Response
  unfolding got_reply
  handle_get env req c = got_reply (pos c.current) req.key (on_db ext env (get env.now req.key) c)

  -- `req.After` and `req.Contains` leave an entry out.
  unfoldable pub is_left_out : Request → Entry → Bool
  is_left_out req e =
      let word = to_lower req.contains in
      (ltb_ℤ (pos 0) req.after && ltb_ℤ (entry_unix e) req.after)
      || (not (is_empty word) && not (contains (to_lower e.value) word))

  abbrev pub prepend : KeyRecord → Core × Option (List KeyRecord) → Core × Option (List KeyRecord)
  prepend r (c, none) = (c, none)
  prepend r (c, some rs) = (c, some (r ∷ rs))

  -- The loop of `handleEntries`; `ticks` gives the clock at each read, and `none` is a record that
  -- cannot be encoded.
  unfoldable pub collect :
      Env → (ℕ → ℤ) → Request → List Text → Core → Core × Option (List KeyRecord)
  collect env ticks req [] c = (c, some [])
  collect env ticks req (key ∷ ks) c =
      let (after, found) = on_db ext env (get (ticks 0) key) c in
      let rest = collect env (λ n. ticks (suc n)) req ks after in
      elim found [
        | none ↦ rest
        | some e ↦ if is_left_out req e then rest else elim (to_record (pos c.current) key e) [
          | none ↦ (after, none)
          | some r ↦ prepend r rest
        ]
      ]

  pub entries_reply : ℤ → Core × Option (List KeyRecord) → Core × Response
  entries_reply limit (c, none) = (c, encode_failed)
  entries_reply limit (c, some rs) =
      (c, record empty_response { entries = last_of (limit_or_default limit) rs })

  unfoldable pub handle_entries : Env → (ℕ → ℤ) → Request → Core → Core × Response
  unfolding entries_reply
  handle_entries env ticks req c =
      if is_empty req.pattern
      then (c, bad_request (codes "pattern is required"))
      else let (after, found) = on_db ext env (λ d. (d, keys ext env.now req.pattern d)) c in
        entries_reply req.limit (collect env ticks req found after)

  pub set_reply : Core × Option Error → Core × Response
  set_reply (c, none) = (c, empty_response)
  set_reply (c, some err) = (c, vector_failure err)

  unfoldable pub store_content : Env → Request → Stored → Core → Core × Response
  unfolding set_reply
  store_content env req (refused err) c = (c, bad_request (describe_content err))
  store_content env req (stored value) c = set_reply (
      if req.vector
      then set_vector ext env req.key value set_default req.expire_at c
      else on_db ext env (set ext (env.io 0) env.now req.key value set_default req.expire_at) c)

  unfoldable pub handle_set : Env → Request → Core → Core × Response
  handle_set env req c = store_content env req (encode_content wire req.content) c

  unfoldable pub count_reply : Core × ℕ → Core × Response
  count_reply (c, count) = (c, record empty_response { count = some count })

  unfoldable pub handle_del : Env → Request → Core → Core × Response
  unfolding count_reply
  handle_del env req c =
      if is_empty req.keys
      then (c, bad_request (codes "keys is required"))
      else count_reply (on_db ext env (del ext env.io req.keys) c)

  unfoldable pub ttl_reply : Core × ℤ → Core × Response
  ttl_reply (c, negsuc (suc zero)) = (c, failure kind_not_found (codes "key not found"))
  ttl_reply (c, seconds) = (c, record empty_response { ttl = some seconds })

  unfoldable pub handle_ttl : Env → Request → Core → Core × Response
  unfolding ttl_reply
  handle_ttl env req c = ttl_reply (on_db ext env (ttl env.now env.later req.key) c)

  abbrev pub add_success : Option Error → ℕ → ℕ
  add_success none count = count + 1
  add_success (some err) count = count

  -- The loop of `handleExpire`: the count of the calls without an error.
  unfoldable pub expire_each : Env → (ℕ → ℤ) → (ℕ → Io) → ℤ → List Text → Core → Core × ℕ
  expire_each env ticks io seconds [] c = (c, 0)
  expire_each env ticks io seconds (key ∷ ks) c =
      let (after, err) = on_db ext env (expire ext (io 0) (ticks 0) key seconds) c in
      let (last, count) = expire_each env (λ n. ticks (suc n)) (λ n. io (suc n)) seconds ks after in
      (last, add_success err count)

  unfoldable pub expire_for : Env → (ℕ → ℤ) → Request → Option ℤ → Core → Core × Response
  unfolding count_reply
  expire_for env ticks req none c = (c, bad_request (codes "ttl is required"))
  expire_for env ticks req (some seconds) c =
      if leb_ℤ seconds (pos 0)
      then (c, bad_request (codes "ttl must be a positive integer"))
      else count_reply (expire_each env ticks env.io seconds req.keys c)

  unfoldable pub handle_expire : Env → (ℕ → ℤ) → Request → Core → Core × Response
  handle_expire env ticks req c =
      if is_empty req.keys
      then (c, bad_request (codes "keys is required"))
      else expire_for env ticks req req.ttl c

  unfoldable pub handle_keys : Env → Request → Core → Core × Reply
  handle_keys env req c =
      if is_empty req.pattern
      then (c, answered (bad_request (codes "pattern is required")))
      else let (after, found) = on_db ext env (λ d. (d, keys ext env.now req.pattern d)) c in
        (after, page_reply (pos c.current) req.limit req.page found)

  pub search_reply : Core × Result (List Text) → Core × Response
  search_reply (c, ok found) = (c, record empty_response { keys = found })
  search_reply (c, failed err) = (c, vector_failure err)

  -- With no embedder the database is not touched.
  unfoldable pub search_with : Option Embedder → Env → Request → Core → Core × Response
  unfolding search_reply
  search_with none env req c = (c, vector_failure no_embedder)
  search_with (some emb) env req c = search_reply (
      on_db ext env
        (vsearch ext (env.io 0) env.now (some emb) (env.embedded req.text) req.text req.pattern
          (limit_or_default req.limit))
        c)

  unfoldable pub handle_vsearch : Env → Request → Core → Core × Response
  handle_vsearch env req c =
      if is_empty req.pattern
      then (c, bad_request (codes "pattern is required"))
      else if is_empty (trim_space req.text)
      then (c, bad_request (codes "text is required"))
      else search_with c.embedder env req c

  unfoldable pub handle_embedder : Core → Response
  handle_embedder c = record empty_response { embedder = some (is_some c.embedder) }

  abbrev pub answer : Core × Response → Core × Reply
  answer (c, r) = (c, answered r)

  -- The `switch req.Op`.
  unfoldable pub handle : Env → (ℕ → ℤ) → Request → Core → Core × Reply
  handle env ticks req c =
      if text_eq req.op op_get
      then answer (handle_get env req c)
      else if text_eq req.op op_entries
      then answer (handle_entries env ticks req c)
      else if text_eq req.op op_set
      then answer (handle_set env req c)
      else if text_eq req.op op_del
      then answer (handle_del env req c)
      else if text_eq req.op op_ttl
      then answer (handle_ttl env req c)
      else if text_eq req.op op_expire
      then answer (handle_expire env ticks req c)
      else if text_eq req.op op_keys
      then handle_keys env req c
      else if text_eq req.op op_vsearch
      then answer (handle_vsearch env req c)
      else if text_eq req.op op_embedder
      then answer (c, handle_embedder c)
      else (c, answered (bad_request (codes "unknown op " ++ wire.quote req.op)))

  -- A session shares the databases and the jobs of the store, and selects its own database.
  unfoldable pub dispatch_selected :
      Env → (ℕ → ℤ) → Request → Core → Core × Option Error → Core × Reply
  dispatch_selected env ticks req c (session, some err) =
      (c, answered (bad_request (wire.describe err)))
  dispatch_selected env ticks req c (session, none) =
      let (after, reply) = handle env ticks req session in
      (record c { dbs = after.dbs; jobs = after.jobs }, reply)

  unfoldable pub dispatch : Env → (ℕ → ℤ) → Request → Core → Core × Reply
  unfolding dispatch_selected
  dispatch env ticks req c = dispatch_selected env ticks req c (select req.db c)
