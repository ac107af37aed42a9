-- ===== src/Store/Exec/Commands.antt =====
-- The commands of `Exec` in core/store/exec.go, a function for each case of its `switch`.
use torii_db.Base.{
  ℕ, pos, Text, codes, trim_space, join, Option, none, some, List, [], ◌∷◌, is_empty, if◌then◌else◌,
}
use torii_db.Base.Number.{parse_int}
use torii_db.External.{External}
use torii_db.Json.{Float}
use torii_db.Filter.Operation.{ato_operation}
use torii_db.Filter.Parser.{ato_filter}
use torii_db.Store.Db.{no_embedder}
use torii_db.Store.Set.{set}
use torii_db.Store.SetField.{set_field}
use torii_db.Store.Get.{get, get_field, exist, exist_field, type_of, type_field, vget}
use torii_db.Store.Del.{del, del_field}
use torii_db.Store.Ttl.{ttl, expire, expire_at, persist}
use torii_db.Store.Incr.{incr, incr_field}
use torii_db.Store.Scan.{keys, find}
use torii_db.Store.Search.{vsim, vsearch, Embedder}
use torii_db.Store.Core.{Core, Env, on_db, select, set_vector}
use torii_db.Store.Exec.Args.{
  SetArgs, parse_set_args, parse_limit, extract_limit_from_infix, parse_vsearch_args, split_key,
  positive,
}
use torii_db.Store.Exec.Replies.{
  Reply, reply, error_reply, ok_or_nil, ok_or_error, value_or_nil, entry_or_nil, as_reply, reading,
  usage, number_or_nil, list_reply, run_query, search_reply, score_reply, vector_reply, ttl_reply,
  count_reply,
}

-- The arguments behind the command's name, command by command.
module _ (ext : External) (env : Env) where
  unfoldable pub exec_get : List Text → Core → Core × Reply
  exec_get (key ∷ []) c =
      let (main_key, sub_keys) = split_key key in
      if is_empty sub_keys
      then entry_or_nil (on_db ext env (get env.now main_key) c)
      else value_or_nil (on_db ext env (reading (get_field ext env.now main_key sub_keys)) c)
  exec_get _ c = usage c (codes "usage: GET <key>")

  unfoldable pub exec_exist : List Text → Core → Core × Reply
  exec_exist (key ∷ []) c =
      let (main_key, sub_keys) = split_key key in
      as_reply (
        if is_empty sub_keys
        then on_db ext env (exist env.now main_key) c
        else on_db ext env (reading (exist_field ext env.now main_key sub_keys)) c)
  exec_exist _ c = usage c (codes "usage: EXIST <key>")

  unfoldable pub exec_type : List Text → Core → Core × Reply
  exec_type (key ∷ []) c =
      let (main_key, sub_keys) = split_key key in
      as_reply (
        if is_empty sub_keys
        then on_db ext env (type_of env.now main_key) c
        else on_db ext env (reading (type_field ext env.now main_key sub_keys)) c)
  exec_type _ c = usage c (codes "usage: TYPE <key>")

  -- A key with field names writes the field; any other key is taken whole.
  unfoldable pub set_parsed_args : Text → Text × SetArgs → Core → Core × Reply
  set_parsed_args key (value, a) c =
      let (main_key, sub_keys) = split_key key in
      if is_empty sub_keys
      then (if a.vector
          then ok_or_error (set_vector ext env key value a.flag a.expire_at c)
          else ok_or_nil
              (on_db ext env (set ext (env.io 0) env.now key value a.flag a.expire_at) c))
      else if a.vector
      then (c, reply (codes "error: VECTOR not supported on field-level SET"))
      else ok_or_nil (
          on_db ext env
            (set_field ext (env.io 0) env.now main_key sub_keys value a.flag a.expire_at) c)

  unfoldable pub exec_set : List Text → Core → Core × Reply
  exec_set (key ∷ word ∷ more) c = set_parsed_args key (parse_set_args env.now (word ∷ more)) c
  exec_set _ c = usage c (codes "usage: SET <key> <value> [NX|XX] [<seconds>] [VECTOR]")

  unfoldable pub exec_ttl : List Text → Core → Core × Reply
  exec_ttl (key ∷ []) c = ttl_reply (on_db ext env (ttl env.now env.later key) c)
  exec_ttl _ c = usage c (codes "usage: TTL <key>")

  unfoldable pub exec_expire : List Text → Core → Core × Reply
  exec_expire (key ∷ seconds ∷ []) c = elim (positive (parse_int seconds)) [
    | none ↦ (c, reply (codes "error: seconds must be a positive integer"))
    | some sec ↦ ok_or_nil (on_db ext env (expire ext (env.io 0) env.now key (pos sec)) c)
  ]
  exec_expire _ c = usage c (codes "usage: EXPIRE <key> <seconds>")

  unfoldable pub exec_expire_at : List Text → Core → Core × Reply
  exec_expire_at (key ∷ timestamp ∷ []) c = elim (parse_int timestamp) [
    | none ↦ (c, reply (codes "error: timestamp must be a valid integer"))
    | some ts ↦ ok_or_nil (on_db ext env (expire_at ext (env.io 0) key ts) c)
  ]
  exec_expire_at _ c = usage c (codes "usage: EXPIREAT <key> <timestamp>")

  unfoldable pub exec_persist : List Text → Core → Core × Reply
  exec_persist (key ∷ []) c = ok_or_nil (on_db ext env (persist ext (env.io 0) key) c)
  exec_persist _ c = usage c (codes "usage: PERSIST <key>")

  unfoldable pub incr_by : Text → Float → Core → Core × Reply
  incr_by key delta c =
      let (main_key, sub_keys) = split_key key in
      number_or_nil ext (
        if is_empty sub_keys
        then on_db ext env (incr ext (env.io 0) env.now main_key delta) c
        else on_db ext env (incr_field ext (env.io 0) env.now main_key sub_keys delta) c)

  -- `delta := 1.0`
  unfoldable pub exec_incr : List Text → Core → Core × Reply
  exec_incr (key ∷ []) c = incr_by key (ext.float_of_int (pos 1)) c
  exec_incr (key ∷ amount ∷ []) c = elim (ext.parse_float amount) [
    | none ↦ (c, reply (codes "error: delta must be a number"))
    | some delta ↦ incr_by key delta c
  ]
  exec_incr _ c = usage c (codes "usage: INCR <key> [delta]")

  -- One key with field names deletes the field.
  unfoldable pub exec_del : List Text → Core → Core × Reply
  exec_del [] c = usage c (codes "usage: DEL <key> [key2] ...")
  exec_del (key ∷ []) c =
      let (main_key, sub_keys) = split_key key in
      if is_empty sub_keys
      then count_reply (on_db ext env (del ext env.io (key ∷ [])) c)
      else ok_or_nil (on_db ext env (del_field ext (env.io 0) env.now main_key sub_keys) c)
  exec_del (key ∷ more) c = count_reply (on_db ext env (del ext env.io (key ∷ more)) c)

  unfoldable pub exec_keys : List Text → Core → Core × Reply
  exec_keys (pattern ∷ []) c = list_reply (on_db ext env (reading (keys ext env.now pattern)) c)
  exec_keys _ c = usage c (codes "usage: KEYS <pattern>")

  unfoldable pub exec_find : List Text → Core → Core × Reply
  exec_find (operator ∷ word ∷ more) c =
      let (tail, limit) = parse_limit (word ∷ more) in
      elim (ato_operation operator) [
        | none ↦
            (c, reply (codes "error: operator must be eq, ne, gt, gte/ge, lt, lte/le, or like"))
        | some op ↦
            list_reply
              (on_db ext env (reading (find ext env.now op (join (codes " ") tail) limit)) c)
      ]
  exec_find _ c = usage c (codes "usage: FIND <op> <value> [LIMIT <n>]")

  unfoldable pub exec_query : List Text → Core → Core × Reply
  exec_query [] c = usage c (codes "usage: QUERY <expression> [LIMIT <n>]")
  exec_query (word ∷ more) c =
      let (expr, limit) = extract_limit_from_infix (word ∷ more) in
      run_query ext env limit c (ato_filter expr)

  -- With no embedder the database is not touched.
  unfoldable pub vsearch_with : Option Embedder → Text → Text → ℕ → Core → Core × Reply
  vsearch_with none text pattern limit c = (c, error_reply no_embedder)
  vsearch_with (some emb) text pattern limit c = search_reply (
      on_db ext env
        (vsearch ext (env.io 0) env.now (some emb) (env.embedded text) text pattern limit) c)

  unfoldable pub exec_vsearch : List Text → Core → Core × Reply
  exec_vsearch [] c = usage c (codes "usage: VSEARCH <text> [MATCH <pattern>] [LIMIT <n>]")
  exec_vsearch (word ∷ more) c =
      let (text, pattern, limit) = parse_vsearch_args (word ∷ more) in
      if is_empty (trim_space text)
      then usage c (codes "usage: VSEARCH <text> [MATCH <pattern>] [LIMIT <n>]")
      else vsearch_with c.embedder text pattern limit c

  unfoldable pub exec_vsim : List Text → Core → Core × Reply
  exec_vsim (key1 ∷ key2 ∷ []) c = score_reply (on_db ext env (vsim ext env.now key1 key2) c)
  exec_vsim _ c = usage c (codes "usage: VSIM <key1> <key2>")

  unfoldable pub exec_vget : List Text → Core → Core × Reply
  exec_vget (key ∷ []) c = vector_reply (on_db ext env (vget env.now key) c)
  exec_vget _ c = usage c (codes "usage: VGET <key>")

  unfoldable pub exec_select : List Text → Core → Core × Reply
  exec_select (index ∷ []) c = elim (parse_int index) [
    | none ↦ (c, reply (codes "error: db index must be an integer"))
    | some i ↦ ok_or_error (select i c)
  ]
  exec_select _ c = usage c (codes "usage: SELECT <db> (0-15)")
