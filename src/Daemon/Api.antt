-- ===== src/Daemon/Api.antt =====
-- core/daemon/api.go: the methods of `Daemon`, over the call of either mode.
pub mod InProcess
pub mod Stored
use torii_db.Base.{
  ℤ, pos, ℕ, Text, Bool, true, false, Option, none, some, List, is_empty, if◌then◌else◌,
}
use torii_db.Daemon.Call.{CallError, Returned, response, error}
use torii_db.Daemon.Protocol.{
  Request, Response, KeyRecord, ScanOption, ListResult, plain_request, op_get, op_entries, op_set,
  op_del, op_ttl, op_expire, op_keys, op_vsearch, op_embedder,
}
use torii_db.Daemon.Server.{Local, returned, panic}

-- `not_encoded` is an error of json.Marshal; `panicked` stands for a nil pointer, or a call that
-- panics.
pub data Answer {ℓ} (A : Type ℓ) : Type ℓ where
  value : A → Answer A
  call_error : CallError → Answer A
  not_encoded panicked : Answer A

-- A pointer's value
unfoldable pub deref {ℓ} : {A : Type ℓ} → Option A → Answer A
deref (some a) = value a
deref none = panicked

unfoldable pub answer_of {ℓ} : {A : Type ℓ} → (Response → Answer A) → Local → Answer A
answer_of f (returned (response r)) = f r
answer_of f (returned (error e)) = call_error e
answer_of f panic = panicked

abbrev entries_request : ℤ → Text → Option ScanOption → Request
entries_request db pattern none = record (plain_request op_entries db) { pattern = pattern }
entries_request db pattern (some o) = record (plain_request op_entries db) {
  pattern = pattern;
  contains = o.contains;
  after = o.after;
  limit = o.limit;
}

-- `call` gives what a call returns, and the state that it leaves: the store, or the client's pool.
module _ {ℓ} {S : Type ℓ} (call : Request → S → S × Local) where
  unfoldable pub ask {κ} : {A : Type κ} → Request → (Response → Answer A) → S → S × Answer A
  ask req f s = let (after, r) = call req s in (after, answer_of f r)

  unfoldable pub api_get : ℤ → Text → S → S × Answer (Option KeyRecord)
  api_get db key s = ask (record (plain_request op_get db) { key = key }) (λ r. value r.entry) s

  unfoldable pub api_entries : ℤ → Text → Option ScanOption → S → S × Answer (List KeyRecord)
  api_entries db pattern options s =
      ask (entries_request db pattern options) (λ r. value r.entries) s

  -- `raw` is json.Marshal's result on the content.
  unfoldable pub api_set_content :
      ℤ → Text → Option Text → Option ℤ → Bool → S → S × Answer {0} Unit
  api_set_content db key none expire_at vector s = (s, not_encoded)
  api_set_content db key (some raw) expire_at vector s =
      ask
        (record (plain_request op_set db) {
          key = key;
          content = raw;
          vector = vector;
          expire_at = expire_at;
        })
        (λ r. value tt) s

  unfoldable pub api_set : ℤ → Text → Option Text → Option ℤ → S → S × Answer {0} Unit
  api_set db key raw expire_at s = api_set_content db key raw expire_at false s

  unfoldable pub api_set_vector : ℤ → Text → Option Text → Option ℤ → S → S × Answer {0} Unit
  api_set_vector db key raw expire_at s = api_set_content db key raw expire_at true s

  unfoldable pub api_count : Request → S → S × Answer ℕ
  api_count req s = if is_empty req.keys then (s, value 0) else ask req (λ r. deref r.count) s

  unfoldable pub api_del : ℤ → List Text → S → S × Answer ℕ
  api_del db keys s = api_count (record (plain_request op_del db) { keys = keys }) s

  unfoldable pub api_ttl : ℤ → Text → S → S × Answer ℤ
  api_ttl db key s = ask (record (plain_request op_ttl db) { key = key }) (λ r. deref r.ttl) s

  unfoldable pub api_expire : ℤ → ℤ → List Text → S → S × Answer ℕ
  api_expire db seconds keys s =
      api_count (record (plain_request op_expire db) { keys = keys; ttl = some seconds }) s

  unfoldable pub api_keys : ℤ → Text → ℤ → ℤ → S → S × Answer (Option ListResult)
  api_keys db pattern limit page s =
      ask (record (plain_request op_keys db) { pattern = pattern; limit = limit; page = page })
        (λ r. value r.list) s

  unfoldable pub api_vsearch : ℤ → Text → Text → ℤ → S → S × Answer (List Text)
  api_vsearch db text pattern limit s =
      ask (record (plain_request op_vsearch db) { text = text; pattern = pattern; limit = limit })
        (λ r. value r.keys) s

  abbrev or_false : Option Bool → Bool
  or_false none = false
  or_false (some b) = b

  unfoldable pub api_has_embedder : S → S × Answer Bool
  api_has_embedder s = ask (plain_request op_embedder (pos 0)) (λ r. value (or_false r.embedder)) s
