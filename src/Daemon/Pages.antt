-- ===== src/Daemon/Pages.antt =====
-- The page of keys that `handleKeys` of core/daemon/handler.go answers with. A response is `crashed`
-- where the Go code panics, which ends the process.
pub mod Laws
use torii_db.Base.{
  ℕ, zero, suc, ◌+◌, ◌-◌, ◌*◌, ℤ, pos, negsuc, ◌+ℤ◌, leb_ℤ, ltb_ℤ, wrap64, max, Text, codes,
  text_eq, contains, to_lower, trim_space, Bool, true, false, not, ◌&&◌, ◌||◌, Option, none, some,
  List, [], ◌∷◌, ◌++◌, length, take, drop, is_empty, ltb, leb, ◌==◌, if◌then◌else◌, is_some,
}
use torii_db.Daemon.Content.{
  stored, refused, Stored, describe_content, encode_content, decode_content, marshal_content,
}
use torii_db.Daemon.Protocol.{
  Request, Response, KeyRecord, ListResult, Wire, empty_response, failure, kind_not_found,
  kind_bad_request, kind_no_embedder, kind_internal, op_get, op_entries, op_set, op_del, op_ttl,
  op_expire, op_keys, op_vsearch, op_embedder,
}
use torii_db.External.{External}
use torii_db.Store.Core.{Core, Env, on_db, select, set_vector}
use torii_db.Store.Db.{Db, Error, no_embedder, Result, ok, failed, Io}
use torii_db.Store.Del.{del}
use torii_db.Store.Entry.{Entry, type_name}
use torii_db.Store.Get.{get}
use torii_db.Store.Scan.{keys, entry_time}
use torii_db.Store.Search.{Embedder, vsearch}
use torii_db.Store.Set.{set_default, set}
use torii_db.Store.Ttl.{ttl, expire}

pub data Reply : Type 0 where
  answered : Response → Reply
  crashed : Reply

-- `keys[from:to]` panics outside 0 ≤ from ≤ to ≤ len(keys).
unfoldable pub slice {ℓ} : {A : Type ℓ} → List A → ℤ → ℤ → Option (List A)
slice xs (pos from) (pos to) =
    if leb from to && leb to (length xs) then some (take (to - from) (drop from xs)) else none
slice xs _ _ = none

abbrev min_ℤ : ℤ → ℤ → ℤ
min_ℤ a b = if leb_ℤ a b then a else b

-- `max(req.Page, 1)`
unfoldable pub page_of : ℤ → ℕ
page_of (pos (suc n)) = suc n
page_of _ = 1

-- `from` and `to` of a page, in int64
unfoldable pub page_bounds : ℕ → ℕ → ℕ → ℤ × ℤ
page_bounds limit page total =
    let from = min_ℤ (wrap64 (pos ((page - 1) * limit))) (pos total) in
    (from, min_ℤ (wrap64 (from +ℤ pos limit)) (pos total))

listed : ℤ → ℤ → ℤ → ℕ → Option (List Text) → Reply
listed db limit page total none = crashed
listed db limit page total (some part) = answered (record empty_response {
  list = some (record { db = db; page = page; limit = limit; total = total; keys = part });
})

-- The part of `handleKeys` behind the scan.
unfoldable pub page_reply : ℤ → ℤ → ℤ → List Text → Reply
unfolding listed
page_reply db (pos (suc n)) page found =
    let (from, to) = page_bounds (suc n) (page_of page) (length found) in
    listed db (pos (suc n)) (pos (page_of page)) (length found) (slice found from to)
page_reply db limit page found = listed db (pos 0) (pos 1) (length found) (some found)
