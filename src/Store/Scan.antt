-- ===== src/Store/Scan.antt =====
-- The commands that look through all entries: core/store/keys.go, core/store/find.go and
-- core/store/query.go.
pub mod Chunks
pub mod Keys
use torii_db.Base.{
  ℕ, zero, suc, ◌+◌, ◌-◌, ◌/◌, ◌*◌, ◌≤◌, ℤ, leb_ℤ, ltb_ℤ, Text, codes, text_ltb, Dict, Bool, true,
  false, not, ◌&&◌, ◌||◌, Option, none, some, List, [], ◌∷◌, ◌++◌, map, lookup, length, take, drop,
  ltb, leb, ◌==◌, if◌then◌else◌, is_some,
}
use torii_db.Base.Sort.{sort}
use torii_db.External.{External}
use torii_db.Filter.Operation.{Operator, match_op}
use torii_db.Filter.Condition.{Filter, filter_match}
use torii_db.Store.Entry.{Entry, is_expired, cached}
use torii_db.Store.Vector.{is_internal}
use torii_db.Store.Db.{Db}

-- `matched` of `path.Match`, a malformed pattern matching nothing
abbrev pub matches : Option Bool → Bool
matches none = false
matches (some b) = b

unfoldable pub matching_keys : External → ℤ → Text → Dict Entry → List Text
matching_keys ext now pattern [] = []
matching_keys ext now pattern ((k, e) ∷ m) =
    let rest = matching_keys ext now pattern m in
    if is_internal k
    then rest
    else if is_expired e now
    then rest
    else if matches (ext.path_match pattern k)
    then k ∷ rest
    else rest

unfoldable pub keys : External → ℤ → Text → Db → List Text
keys ext now pattern d = sort text_ltb (matching_keys ext now pattern d.entries)

pub record SortItem : Type 0 where
  pub display : Text
  pub ts : ℤ

unfoldable pub entry_time : Entry → ℤ
entry_time e = elim e.updated_at [ some t ↦ t | none ↦ e.created_at ]

-- The later item comes first; items of one time stand by their texts.
unfoldable pub item_before : SortItem → SortItem → Bool
item_before a b =
    if ltb_ℤ a.ts b.ts || ltb_ℤ b.ts a.ts then ltb_ℤ b.ts a.ts else text_ltb a.display b.display

abbrev pub display_of : SortItem → Text
display_of it = it.display

-- A limit that is not positive is none.
unfoldable pub sort_and_collect : List SortItem → ℕ → List Text
sort_and_collect items limit =
    let sorted = sort item_before items in
    map display_of (if ltb 0 limit && ltb limit (length sorted) then take limit sorted else sorted)

abbrev pub slice_block : ℕ
slice_block = 1024

-- The chunks of `slice_block` keys, from the first on; `chunks` of them.
unfoldable pub scan_chunks : (List Text → List SortItem) → ℕ → List Text → List SortItem
scan_chunks scan zero ks = []
scan_chunks scan (suc chunks) ks =
    scan (take slice_block ks) ++ scan_chunks scan chunks (drop slice_block ks)

-- `sliceScan`: the chunks are scanned in parallel, and merged in their order.
unfoldable pub slice_scan : (List Text → List SortItem) → List Text → List SortItem
slice_scan scan ks =
    let n = length ks in
    if leb n slice_block then scan ks else scan_chunks scan ((n + slice_block - 1) / slice_block) ks

unfoldable pub user_keys : Dict Entry → List Text
user_keys [] = []
user_keys ((k, e) ∷ m) = let rest = user_keys m in if is_internal k then rest else k ∷ rest

-- The scan of one chunk: the live entries that give an item.
unfoldable pub scan_keys :
    ℤ → Dict Entry → (Text → Entry → Option SortItem) → List Text → List SortItem
scan_keys now m item [] = []
scan_keys now m item (k ∷ ks) =
    let rest = scan_keys now m item ks in
    elim (lookup k m) [
      | none ↦ rest
      | some e ↦
          if is_expired e now then rest else elim (item k e) [ none ↦ rest | some it ↦ it ∷ rest ]
    ]

unfoldable pub find_item : External → Operator → Text → Text → Entry → Option SortItem
find_item ext op value k e =
    if match_op ext e.value op value then some (record { display = k; ts = entry_time e }) else none

unfoldable pub find : External → ℤ → Operator → Text → ℕ → Db → List Text
find ext now op value limit d =
    sort_and_collect
      (slice_scan (scan_keys now d.entries (find_item ext op value)) (user_keys d.entries)) limit

unfoldable pub query_item : External → Filter → Text → Entry → Option SortItem
query_item ext f k e = elim (cached e) [
  | none ↦ none
  | some v ↦
      if filter_match ext f v
      then some (record { display = k ++ (codes ": " ++ e.value); ts = entry_time e })
      else none
]

unfoldable pub query : External → ℤ → Filter → ℕ → Db → List Text
query ext now f limit d =
    sort_and_collect (slice_scan (scan_keys now d.entries (query_item ext f)) (user_keys d.entries))
      limit
