-- ===== src/Store/Exec/Replies.antt =====
-- The replies of core/store/exec.go, made of the results of the commands.
use torii_db.Base.{ℕ, zero, suc, ℤ, pos, negsuc, Text, codes, Option, none, some, List, ◌++◌}
use torii_db.Base.Number.{format_int}
use torii_db.External.{External}
use torii_db.Json.{Float}
use torii_db.Utils.{vtoa_float}
use torii_db.Filter.Parser.{ParseError, Parsed, parsed, parse_failed, out_of_fuel}
use torii_db.Filter.Condition.{Filter}
use torii_db.Store.Entry.{Entry}
use torii_db.Store.Db.{Db, Error, Result, ok, failed, vector_missing}
use torii_db.Store.Scan.{query}
use torii_db.Store.Core.{Core, Env, on_db}
use torii_db.Store.Exec.Args.{show_list}

-- A reply is a text; where the text is made of an error (`fmt.Sprintf("error: %v", err)`) the model
-- keeps the error. `marshalled` is the JSON text of a vector, `float_text` that of a score.
pub data Reply : Type 0 where
  reply : Text → Reply
  error_reply : Error → Reply
  filter_error : ParseError → Reply
  marshalled : List ℕ → Reply
  float_text : Float → Reply

abbrev pub nil_reply : Reply
nil_reply = reply (codes "(nil)")

abbrev pub ok_reply : Reply
ok_reply = reply (codes "OK")

abbrev pub integer_reply : ℤ → Reply
integer_reply n = reply (codes "(integer) " ++ format_int n)

-- `OK`, or `(nil)` for an error.
abbrev pub ok_or_nil : Core × Option Error → Core × Reply
ok_or_nil (c, none) = (c, ok_reply)
ok_or_nil (c, some err) = (c, nil_reply)

abbrev pub ok_or_error : Core × Option Error → Core × Reply
ok_or_error (c, none) = (c, ok_reply)
ok_or_error (c, some err) = (c, error_reply err)

abbrev pub value_or_nil : Core × Option Text → Core × Reply
value_or_nil (c, none) = (c, nil_reply)
value_or_nil (c, some text) = (c, reply text)

abbrev pub entry_or_nil : Core × Option Entry → Core × Reply
entry_or_nil (c, none) = (c, nil_reply)
entry_or_nil (c, some e) = (c, reply e.value)

abbrev pub as_reply : Core × Text → Core × Reply
as_reply (c, text) = (c, reply text)

-- A command that only reads.
abbrev pub reading {ℓ} : {A : Type ℓ} → (Db → A) → Db → Db × A
reading f d = (d, f d)

abbrev pub usage : Core → Text → Core × Reply
usage c text = (c, reply text)

-- The number that a command returns, or `(nil)`.
abbrev pub number_or_nil : External → Core × Result Float → Core × Reply
number_or_nil ext (c, ok f) = (c, reply (vtoa_float ext f))
number_or_nil ext (c, failed err) = (c, nil_reply)

abbrev pub list_reply : Core × List Text → Core × Reply
list_reply (c, ks) = (c, reply (show_list ks))

-- `filter.AtoFilter` gives a filter or an error.
abbrev pub run_query : External → Env → ℕ → Core → Parsed Filter → Core × Reply
run_query ext env limit c (parsed f p) =
    list_reply (on_db ext env (reading (query ext env.now f limit)) c)
run_query ext env limit c (parse_failed err) = (c, filter_error err)
run_query ext env limit c out_of_fuel = (c, nil_reply)

abbrev pub search_reply : Core × Result (List Text) → Core × Reply
search_reply (c, ok ks) = (c, reply (show_list ks))
search_reply (c, failed err) = (c, error_reply err)

abbrev pub score_reply : Core × Result Float → Core × Reply
score_reply (c, ok s) = (c, float_text s)
score_reply (c, failed vector_missing) = (c, nil_reply)
score_reply (c, failed err) = (c, error_reply err)

abbrev pub vector_reply : Core × Option (List ℕ) → Core × Reply
vector_reply (c, some vec) = (c, marshalled vec)
vector_reply (c, none) = (c, nil_reply)

abbrev pub ttl_reply : Core × ℤ → Core × Reply
ttl_reply (c, negsuc (suc zero)) = (c, nil_reply)
ttl_reply (c, n) = (c, integer_reply n)

abbrev pub count_reply : Core × ℕ → Core × Reply
count_reply (c, n) = (c, integer_reply (pos n))
