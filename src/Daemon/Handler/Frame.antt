-- ===== src/Daemon/Handler/Frame.antt =====
-- A request works on one database, and leaves the rest of the store alone.
use torii_db.Base.{
  ℕ, suc, ℤ, pos, negsuc, Text, Bool, Option, none, some, List, [], ◌∷◌, get_or, ltb, leb_ℤ,
  if◌then◌else◌, ◌≡◌, ◌≢◌, refl, ap, inl, inr, Bool-cases, Option-cases, trim_space, is_empty, true,
  false, text_eq,
}
use torii_db.Daemon.Content.{Stored, stored, refused, encode_content}
use torii_db.Daemon.Pages.{Reply}
use torii_db.Daemon.Handler.{
  dispatch, handle, to_record, collect, is_left_out, expire_each, handle_get, handle_entries,
  store_content, handle_del, handle_ttl, expire_for, handle_expire, handle_keys, search_with,
  handle_vsearch, limit_or_default, dispatch_selected, handle_set,
}
use torii_db.Daemon.Protocol.{
  Wire, Request, op_get, op_entries, op_set, op_del, op_ttl, op_expire, op_keys, op_vsearch,
  op_embedder,
}
use torii_db.External.{External}
use torii_db.Daemon.Handler.Replies.{
  got_reply-core, entries_reply-core, set_reply-core, ttl_reply-core, search_reply-core,
  prepend-core,
}
use torii_db.Store.Core.{Core, Env, on_db, select, max_db}
use torii_db.Store.Core.Frame.{
  IsFramed, IsFramed-refl, IsFramed-trans, on_db-IsFramed, set_vector-IsFramed,
}
use torii_db.Store.Db.{Db, Io}
use torii_db.Store.Del.{del}
use torii_db.Store.Get.{get}
use torii_db.Store.Scan.{keys}
use torii_db.Store.Search.{Embedder, vsearch}
use torii_db.Store.Set.{set_default, set}
use torii_db.Store.Ttl.{expire, ttl}

module _ (ext : External) (wire : Wire) where
  collect-IsFramed :
      (env : Env) (ticks : ℕ → ℤ) (req : Request) (ks : List Text) (c : Core)
      → IsFramed c (collect ext wire env ticks req ks c).0
  unfolding collect
  collect-IsFramed env ticks req [] c = IsFramed-refl c
  collect-IsFramed env ticks req (key ∷ ks) c =
      let first : IsFramed c (on_db ext env (get (ticks 0) key) c).0 =
        on_db-IsFramed ext env (get (ticks 0) key) c in
      let all = IsFramed-trans first (
        collect-IsFramed env (λ n. ticks (suc n)) req ks (on_db ext env (get (ticks 0) key) c).0) in
      elim (Option-cases (on_db ext env (get (ticks 0) key) c).1) [
        | inl h ↦ rw (collect, h) all
        | inr (e, h) ↦ elim (Bool-cases (is_left_out ext wire req e)) [
          | inl out ↦ rw (collect, h, out) all
          | inr stays ↦ elim (Option-cases (to_record ext wire (pos c.current) key e)) [
            | inl bad ↦ rw (collect, h, stays, bad) first
            | inr (r, good) ↦ rw (collect, h, stays, good, prepend-core) all
          ]
        ]
      ]

  expire_each-IsFramed :
      (env : Env) (ticks : ℕ → ℤ) (io : ℕ → Io) (seconds : ℤ) (ks : List Text) (c : Core)
      → IsFramed c (expire_each ext wire env ticks io seconds ks c).0
  unfolding expire_each
  expire_each-IsFramed env ticks io seconds [] c = IsFramed-refl c
  expire_each-IsFramed env ticks io seconds (key ∷ ks) c =
      IsFramed-trans (on_db-IsFramed ext env (expire ext (io 0) (ticks 0) key seconds) c) (
        expire_each-IsFramed env (λ n. ticks (suc n)) (λ n. io (suc n)) seconds ks
          (on_db ext env (expire ext (io 0) (ticks 0) key seconds) c).0)

  handle_get-IsFramed :
      (env : Env) (req : Request) (c : Core) → IsFramed c (handle_get ext wire env req c).0
  unfolding handle_get
  handle_get-IsFramed env req c = rw got_reply-core (on_db-IsFramed ext env (get env.now req.key) c)

  handle_entries-IsFramed :
      (env : Env) (ticks : ℕ → ℤ) (req : Request) (c : Core)
      → IsFramed c (handle_entries ext wire env ticks req c).0
  unfolding handle_entries
  handle_entries-IsFramed env ticks req c = elim (Bool-cases (is_empty req.pattern)) [
    | inl bad ↦ rw bad (IsFramed-refl c)
    | inr good ↦
        let scan : Db → Db × List Text = λ d. (d, keys ext env.now req.pattern d) in
        rw (good, entries_reply-core)
          (IsFramed-trans (on_db-IsFramed ext env scan c)
            (collect-IsFramed env ticks req (on_db ext env scan c).1 (on_db ext env scan c).0))
  ]

  store_content-IsFramed :
      (env : Env) (req : Request) (s : Stored) (c : Core)
      → IsFramed c (store_content ext wire env req s c).0
  unfolding store_content
  store_content-IsFramed env req (refused err) c = IsFramed-refl c
  store_content-IsFramed env req (stored value) c = elim (Bool-cases req.vector) [
    | inl vector ↦
        rw (vector, set_reply-core)
          (set_vector-IsFramed ext env req.key value set_default req.expire_at c)
    | inr scalar ↦
        rw (scalar, set_reply-core)
          (on_db-IsFramed ext env
            (set ext (env.io 0) env.now req.key value set_default req.expire_at) c)
  ]

  handle_del-IsFramed :
      (env : Env) (req : Request) (c : Core) → IsFramed c (handle_del ext wire env req c).0
  unfolding handle_del
  handle_del-IsFramed env req c = elim (Bool-cases (is_empty req.keys)) [
    | inl bad ↦ rw bad (IsFramed-refl c)
    | inr good ↦ rw good (on_db-IsFramed ext env (del ext env.io req.keys) c)
  ]

  handle_ttl-IsFramed :
      (env : Env) (req : Request) (c : Core) → IsFramed c (handle_ttl ext wire env req c).0
  unfolding handle_ttl
  handle_ttl-IsFramed env req c =
      rw ttl_reply-core (on_db-IsFramed ext env (ttl env.now env.later req.key) c)

  expire_for-IsFramed :
      (env : Env) (ticks : ℕ → ℤ) (req : Request) (seconds : Option ℤ) (c : Core)
      → IsFramed c (expire_for ext wire env ticks req seconds c).0
  unfolding expire_for
  expire_for-IsFramed env ticks req none c = IsFramed-refl c
  expire_for-IsFramed env ticks req (some seconds) c = elim (Bool-cases (leb_ℤ seconds (pos 0))) [
    | inl bad ↦ rw bad (IsFramed-refl c)
    | inr good ↦ rw good (expire_each-IsFramed env ticks env.io seconds req.keys c)
  ]

  handle_expire-IsFramed :
      (env : Env) (ticks : ℕ → ℤ) (req : Request) (c : Core)
      → IsFramed c (handle_expire ext wire env ticks req c).0
  unfolding handle_expire
  handle_expire-IsFramed env ticks req c = elim (Bool-cases (is_empty req.keys)) [
    | inl bad ↦ rw bad (IsFramed-refl c)
    | inr good ↦ rw good (expire_for-IsFramed env ticks req req.ttl c)
  ]

  handle_keys-IsFramed :
      (env : Env) (req : Request) (c : Core) → IsFramed c (handle_keys ext wire env req c).0
  unfolding handle_keys
  handle_keys-IsFramed env req c = elim (Bool-cases (is_empty req.pattern)) [
    | inl bad ↦ rw bad (IsFramed-refl c)
    | inr good ↦ rw good (on_db-IsFramed ext env (λ d. (d, keys ext env.now req.pattern d)) c)
  ]

  search_with-IsFramed :
      (emb : Option Embedder) (env : Env) (req : Request) (c : Core)
      → IsFramed c (search_with ext wire emb env req c).0
  unfolding search_with
  search_with-IsFramed none env req c = IsFramed-refl c
  search_with-IsFramed (some emb) env req c = rw search_reply-core (
      on_db-IsFramed ext env
        (vsearch ext (env.io 0) env.now (some emb) (env.embedded req.text) req.text req.pattern
          (limit_or_default req.limit))
        c)

  handle_vsearch-IsFramed :
      (env : Env) (req : Request) (c : Core) → IsFramed c (handle_vsearch ext wire env req c).0
  unfolding handle_vsearch
  handle_vsearch-IsFramed env req c = elim (Bool-cases (is_empty req.pattern)) [
    | inl bad ↦ rw bad (IsFramed-refl c)
    | inr good ↦ elim (Bool-cases (is_empty (trim_space req.text))) [
      | inl bad ↦ rw (good, bad) (IsFramed-refl c)
      | inr text ↦ rw (good, text) (search_with-IsFramed c.embedder env req c)
    ]
  ]

  if-IsFramed :
      (c : Core) (b : Bool) (t e : Core × Reply)
      → IsFramed c t.0
      → IsFramed c e.0
      → IsFramed c (if b then t else e).0
  if-IsFramed c true t e h k = h
  if-IsFramed c false t e h k = k

  handle-IsFramed :
      (env : Env) (ticks : ℕ → ℤ) (req : Request) (c : Core)
      → IsFramed c (handle ext wire env ticks req c).0
  unfolding handle handle_set
  handle-IsFramed env ticks req c =
      if-IsFramed c (text_eq req.op op_get) _ _ (handle_get-IsFramed env req c) (
        if-IsFramed c (text_eq req.op op_entries) _ _ (handle_entries-IsFramed env ticks req c) (
          if-IsFramed c (text_eq req.op op_set) _ _
            (store_content-IsFramed env req (encode_content wire req.content) c)
            (if-IsFramed c (text_eq req.op op_del) _ _ (handle_del-IsFramed env req c) (
              if-IsFramed c (text_eq req.op op_ttl) _ _ (handle_ttl-IsFramed env req c) (
                if-IsFramed c (text_eq req.op op_expire) _ _
                  (handle_expire-IsFramed env ticks req c)
                  (if-IsFramed c (text_eq req.op op_keys) _ _ (handle_keys-IsFramed env req c) (
                    if-IsFramed c (text_eq req.op op_vsearch) _ _
                      (handle_vsearch-IsFramed env req c)
                      (if-IsFramed c (text_eq req.op op_embedder) _ _ (IsFramed-refl c)
                        (IsFramed-refl c)))))))))

  abbrev pub IsOnDb : ℤ → Core → Core → Type 0
  IsOnDb db c after =
      (after.current ≡ c.current)
      × (after.embedder ≡ c.embedder)
      × ((i : ℕ) → db ≢ pos i → (x : Db) → get_or after.dbs i x ≡ get_or c.dbs i x)

  selected-IsOnDb :
      (env : Env) (ticks : ℕ → ℤ) (req : Request) (db : ℤ) (c : Core)
      → IsOnDb db c (dispatch_selected ext wire env ticks req c (select db c)).0
  unfolding select dispatch_selected
  selected-IsOnDb env ticks req (negsuc n) c = (refl, refl, λ i h x. refl)
  selected-IsOnDb env ticks req (pos n) c = elim (Bool-cases (ltb n max_db)) [
    | inl valid ↦
        let f = handle-IsFramed env ticks req (record c { current = n }) in
        rw valid (refl, refl, λ i h x. f.others i (λ p. h (ap (λ (k : ℕ). pos k) p)) x)
    | inr bad ↦ rw bad (refl, refl, λ i h x. refl)
  ]

  -- A request, whatever its operation and its outcome, leaves every database but the one it names
  -- as it was, and with them the store's own selection and its embedder.
  pub dispatch-IsOnDb :
      (env : Env) (ticks : ℕ → ℤ) (req : Request) (c : Core)
      → IsOnDb req.db c (dispatch ext wire env ticks req c).0
  unfolding dispatch
  dispatch-IsOnDb env ticks req c = selected-IsOnDb env ticks req req.db c
