-- ===== src/Store/Search.antt =====
-- Vectors in use: core/store/vcache.go, core/store/vsearch.go, and `cosine` and `VSim`.
pub mod Best
pub mod Ranking
use torii_db.Base.{
  ℕ, zero, suc, ℤ, leb_ℤ, Text, codes, text_eq, trim_space, Dict, Bool, not, ◌&&◌, ◌||◌, Option,
  none, some, List, [], ◌∷◌, ◌++◌, lookup, length, is_empty, ltb, ◌==◌, if◌then◌else◌, ◌>>=◌,
}
use torii_db.Base.Number.{format_int}
use torii_db.External.{External}
use torii_db.Json.{Float}
use torii_db.Store.Entry.{Entry, type_json, is_expired, set_value, parse_and_cache}
use torii_db.Store.Vector.{internal_prefix, is_internal, encode_vector, decode_vector}
use torii_db.Store.Db.{
  Db, Io, Outcome, Result, ok, failed, vector_missing, vector_mismatch, no_embedder,
  vector_text_empty, embed_failed,
}
use torii_db.Store.Aof.{init_log, add_to_aof, add_to_aof_with_vector}
use torii_db.Store.Set.{new_entry, put_entry}
use torii_db.Store.Get.{get}
use torii_db.Store.Heap.{push, fix_root, pop}
use torii_db.Store.Scan.{matches}

pub record VsearchItem : Type 0 where
  pub key : Text
  pub score : Float

module _ (ext : External) where
  -- The loop of `cosine`: the dot product and the two squared lengths.
  unfoldable pub cosine_sums : List ℕ → List ℕ → Float → Float → Float → Float × Float × Float
  cosine_sums (x ∷ a) (y ∷ b) dot na nb =
      let av = ext.float_of_float32 x in
      let bv = ext.float_of_float32 y in
      cosine_sums a b (ext.float_add dot (ext.float_mul av bv))
        (ext.float_add na (ext.float_mul av av)) (ext.float_add nb (ext.float_mul bv bv))
  cosine_sums _ _ dot na nb = (dot, na, nb)

  -- The bits of the float64 0 are 0.
  unfoldable pub cosine : List ℕ → List ℕ → Option Float
  cosine a b =
      let (dot, na, nb) = cosine_sums a b 0 0 0 in
      if is_empty a || not (length a == length b)
      then none
      else if ext.float_eq na 0 || ext.float_eq nb 0
      then none
      else some (ext.float_div dot (ext.float_mul (ext.float_sqrt na) (ext.float_sqrt nb)))

  unfoldable pub embed_key : Text → ℤ → Text → Text
  embed_key model dim text =
      internal_prefix
      ++ (codes "embed:"
          ++ ext.sha256_hex (model ++ (codes "|" ++ (format_int dim ++ (codes "|" ++ text)))))

  -- The payload must be of this dimension.
  unfoldable pub payload_vector : ℤ → Text × ℤ × Text → Option (List ℕ)
  payload_vector dim (v, d, m) = if leb_ℤ d dim && leb_ℤ dim d then decode_vector ext v else none

  unfoldable pub get_vector : Text → ℤ → Text → Db → Option (List ℕ)
  get_vector model dim text d = do
    e ← lookup (embed_key model dim text) d.entries
    payload ← ext.decode_payload e.value
    payload_vector dim payload

  unfoldable pub cache_entry : ℤ → Text → Text → Option Entry → Entry
  cache_entry now key value (some existing) =
      (parse_and_cache ext
        (record (set_value value existing) { type = type_json; updated_at = some now })).0
  cache_entry now key value none =
      (parse_and_cache ext (set_value value (new_entry key type_json now none))).0

  unfoldable pub put_cache : Io → ℤ → Text → Text → Outcome → Outcome
  put_cache io now key value (d, some err) = (d, some err)
  put_cache io now key value (d, none) =
      add_to_aof ext io (codes "SET") key value none
        (put_entry key (cache_entry now key value (lookup key d.entries)) d)

  unfoldable pub put_vector : Io → ℤ → Text → ℤ → Text → List ℕ → Db → Outcome
  put_vector io now model dim text vec d =
      put_cache io now (embed_key model dim text)
        (ext.encode_payload (encode_vector ext vec) dim model) (init_log io d)

  -- A vector is attached only while the entry still has the text that it was made of.
  unfoldable pub write_vector_to_entry : Io → Text → Text → List ℕ → Db → Db
  write_vector_to_entry io key text vec d = elim (lookup key d.entries) [
    | none ↦ d
    | some e ↦
        if text_eq e.value text
        then (add_to_aof_with_vector ext io (codes "SET") key e.value e.expire_at vec
            (put_entry key (record e { vector = vec }) d)).0
        else d
  ]

  -- Whether an entry takes part in a search, and with which score.
  unfoldable pub score_of : List ℕ → Text → ℤ → Text → Entry → Option Float
  score_of query pattern now k e =
      if is_internal k
      then none
      else if is_expired e now
      then none
      else if is_empty e.vector || not (length e.vector == length query)
      then none
      else if not (is_empty pattern) && not (matches (ext.path_match pattern k))
      then none
      else cosine e.vector query

  unfoldable pub item_less : VsearchItem → VsearchItem → Bool
  item_less a b = ext.float_lt a.score b.score

  -- One candidate: the heap holds the best `limit` so far, the worst at its root.
  unfoldable pub offer : ℕ → VsearchItem → List VsearchItem → List VsearchItem
  offer limit item [] = if ltb 0 limit then push item_less item [] else []
  offer limit item (root ∷ h) =
      if ltb (length (root ∷ h)) limit
      then push item_less item (root ∷ h)
      else if ext.float_lt root.score item.score
      then fix_root item_less (item ∷ h)
      else root ∷ h

  unfoldable pub scan_heap :
      List ℕ → Text → ℕ → ℤ → Dict Entry → List VsearchItem → List VsearchItem
  scan_heap query pattern limit now [] h = h
  scan_heap query pattern limit now ((k, e) ∷ m) h =
      scan_heap query pattern limit now m (elim (score_of query pattern now k e) [
        | none ↦ h
        | some score ↦ offer limit (record { key = k; score = score }) h
      ])

  -- The heap is emptied from its root, and the result filled from its end.
  unfoldable pub drain : ℕ → List VsearchItem → List Text → List Text
  drain zero h out = out
  drain (suc n) h out =
      let (root, rest) = pop item_less h in
      elim root [ none ↦ out | some item ↦ drain n rest (item.key ∷ out) ]

  unfoldable pub scan_top_k : List ℕ → Text → ℕ → ℤ → Db → List Text
  scan_top_k query pattern limit now d =
      let h = scan_heap query pattern limit now d.entries [] in drain (length h) h []

  unfoldable pub similarity : Option Entry → Option Entry → Result Float
  similarity (some e1) (some e2) =
      if is_empty e1.vector || is_empty e2.vector
      then failed vector_missing
      else if not (length e1.vector == length e2.vector)
      then failed vector_mismatch
      else elim (cosine e1.vector e2.vector) [ none ↦ failed vector_missing | some s ↦ ok s ]
  similarity _ _ = failed vector_missing

  -- The second key is read only if the first one is there.
  unfoldable pub vsim : ℤ → Text → Text → Db → Db × Result Float
  vsim now key1 key2 d =
      let (d1, e1) = get now key1 d in
      let (d2, e2) = get now key2 d1 in
      elim e1 [ none ↦ (d1, failed vector_missing) | some e ↦ (d2, similarity (some e) e2) ]

abbrev pub default_vsearch_limit : ℕ
default_vsearch_limit = 10

-- What `Store` knows of the embedding service: its answers are given at each call.
pub record Embedder : Type 0 where
  pub model : Text
  pub dim : ℤ

module _ (ext : External) where
  -- The query's vector, from the cache or from the service; a new one is cached.
  unfoldable pub resolve_query_vector :
      Io → ℤ → Embedder → Option (List ℕ) → Text → Db → Db × Result (List ℕ)
  resolve_query_vector io now emb answer text d = elim (get_vector ext emb.model emb.dim text d) [
    | some vec ↦ (d, ok vec)
    | none ↦ elim answer [
      | none ↦ (d, failed embed_failed)
      | some vec ↦ ((put_vector ext io now emb.model emb.dim text vec d).0, ok vec)
    ]
  ]

  search_found : ℤ → Text → ℕ → Db × Result (List ℕ) → Db × Result (List Text)
  search_found now pattern limit (d, failed err) = (d, failed err)
  search_found now pattern limit (d, ok query) = (d, ok (scan_top_k ext query pattern limit now d))

  unfoldable pub vsearch :
      Io → ℤ → Option Embedder → Option (List ℕ) → Text → Text → ℕ → Db → Db × Result (List Text)
  unfolding search_found
  vsearch io now none answer text pattern limit d = (d, failed no_embedder)
  vsearch io now (some emb) answer text pattern limit d =
      if is_empty (trim_space text)
      then (d, failed vector_text_empty)
      else search_found now pattern (if limit == 0 then default_vsearch_limit else limit)
          (resolve_query_vector io now emb answer text d)

  -- `attachVectorBG`, run with no other writer between its critical sections.
  attach_answer : (ℕ → Io) → ℤ → Embedder → Text → Text → Db → Option (List ℕ) → Db
  attach_answer io now emb key text d none = d
  attach_answer io now emb key text d (some vec) =
      write_vector_to_entry ext (io 1) key text vec
        (put_vector ext (io 0) now emb.model emb.dim text vec d).0

  unfoldable pub attach_vector : (ℕ → Io) → ℤ → Embedder → Option (List ℕ) → Text → Text → Db → Db
  unfolding attach_answer
  attach_vector io now emb answer key text d = elim (get_vector ext emb.model emb.dim text d) [
    | some vec ↦ write_vector_to_entry ext (io 0) key text vec d
    | none ↦ attach_answer io now emb key text d answer
  ]
