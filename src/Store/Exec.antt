-- ===== src/Store/Exec.antt =====
-- `Exec` of core/store/exec.go: a command line, the command that it names, and the reply.
pub mod Args
pub mod Replies
pub mod Commands
use torii_db.Base.{
  ℕ, zero, suc, ◌+◌, ◌-◌, ℤ, pos, negsuc, ◌+ℤ◌, wrap64, Text, codes, text_eq, to_upper, trim_space,
  fields, cut, split_nonempty, join, Bool, true, false, ◌&&◌, not, Option, none, some, List, [],
  ◌∷◌, ◌++◌, is_empty, get_or, length, take, leb, if◌then◌else◌,
}
use torii_db.Base.Number.{parse_int, format_int, format_nat}
use torii_db.External.{External}
use torii_db.Json.{Float}
use torii_db.Utils.{vtoa_float}
use torii_db.Filter.Operation.{ato_operation}
use torii_db.Filter.Parser.{ParseError, Parsed, parsed, parse_failed, out_of_fuel, ato_filter}
use torii_db.Filter.Condition.{Filter}
use torii_db.Store.Entry.{Entry}
use torii_db.Store.Db.{Db, Io, Error, Outcome, Result, ok, failed, vector_missing}
use torii_db.Store.Set.{SetFlag, set}
use torii_db.Store.SetField.{set_field}
use torii_db.Store.Get.{get, get_field, exist, exist_field, type_of, type_field, vget}
use torii_db.Store.Del.{del, del_field}
use torii_db.Store.Ttl.{ttl, expire, expire_at, persist}
use torii_db.Store.Incr.{incr, incr_field}
use torii_db.Store.Scan.{keys, find, query}
use torii_db.Store.Search.{vsim, vsearch}
use torii_db.Store.Core.{Core, Env, on_db, select, set_vector}
use torii_db.Store.Exec.Args.{
  SetArgs, parse_set_args, parse_limit, extract_limit_from_infix, parse_vsearch_args, split_key,
  show_list, positive,
}
use torii_db.Store.Exec.Replies.{
  Reply, reply, error_reply, filter_error, marshalled, float_text, nil_reply, ok_reply,
  integer_reply, ok_or_nil, ok_or_error, value_or_nil, entry_or_nil, as_reply, reading, usage,
  number_or_nil, list_reply, run_query, search_reply, score_reply, vector_reply, ttl_reply,
  count_reply,
}
use torii_db.Store.Exec.Commands.{
  exec_get, exec_exist, exec_type, exec_set, exec_ttl, exec_expire, exec_expire_at, exec_persist,
  exec_incr, exec_del, exec_keys, exec_find, exec_query, exec_vsearch, exec_vsim, exec_vget,
  exec_select,
}

module _ (ext : External) (env : Env) where
  -- The `switch cmd`, over the upper-case name.
  unfoldable pub exec_command : Text → List Text → Core → Core × Reply
  exec_command cmd args c =
      if text_eq cmd (codes "GET")
      then exec_get ext env args c
      else if text_eq cmd (codes "EXIST")
      then exec_exist ext env args c
      else if text_eq cmd (codes "TYPE")
      then exec_type ext env args c
      else if text_eq cmd (codes "SET")
      then exec_set ext env args c
      else if text_eq cmd (codes "TTL")
      then exec_ttl ext env args c
      else if text_eq cmd (codes "EXPIRE")
      then exec_expire ext env args c
      else if text_eq cmd (codes "EXPIREAT")
      then exec_expire_at ext env args c
      else if text_eq cmd (codes "PERSIST")
      then exec_persist ext env args c
      else if text_eq cmd (codes "INCR")
      then exec_incr ext env args c
      else if text_eq cmd (codes "DEL")
      then exec_del ext env args c
      else if text_eq cmd (codes "KEYS")
      then exec_keys ext env args c
      else if text_eq cmd (codes "FIND")
      then exec_find ext env args c
      else if text_eq cmd (codes "QUERY")
      then exec_query ext env args c
      else if text_eq cmd (codes "VSEARCH")
      then exec_vsearch ext env args c
      else if text_eq cmd (codes "VSIM")
      then exec_vsim ext env args c
      else if text_eq cmd (codes "VGET")
      then exec_vget ext env args c
      else if text_eq cmd (codes "SELECT")
      then exec_select ext env args c
      else (c, reply (codes "unknown: " ++ cmd))

  exec_parts : List Text → Core → Core × Reply
  exec_parts [] c = (c, reply [])
  exec_parts (name ∷ args) c = exec_command (to_upper name) args c

  unfoldable pub exec : Text → Core → Core × Reply
  unfolding exec_parts
  exec input c = exec_parts (fields input) c
