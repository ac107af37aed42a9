-- ===== src/Tests/Commands.antt =====
-- The theorems about single commands, paths, filters and scans, at concrete inputs.
use torii_db.Base.{
  [], Text, arith, codes, is_in, lookup, none, pos, refl, some, text_ltb, ◌∷◌, ◌≡◌, ◌≢◌,
  if◌then◌else◌, ltb, ◌^◌,
}
use torii_db.Base.Sort.{IsSorted}
use torii_db.Filter.Parser.{ato_filter, out_of_fuel}
use torii_db.Filter.Parser.Total.{ato_filter-ne-out_of_fuel}
use torii_db.Json.{int, obj}
use torii_db.Samples.{sample, sample-Base64Laws}
use torii_db.Store.Aof.{add_to_aof}
use torii_db.Store.Db.{Db, key_already_exists, key_not_found}
use torii_db.Store.Del.{del}
use torii_db.Store.Del.Laws.{lookup-del}
use torii_db.Store.Entry.{parse_and_cache, Entry, set_parsed}
use torii_db.Store.Get.{get}
use torii_db.Store.Names.{file_name, parse_name, snap}
use torii_db.Store.Names.Laws.{parse_name-file_name}
use torii_db.Store.Scan.{entry_time, keys, scan_keys, slice_scan}
use torii_db.Store.Scan.Chunks.{slice_scan-eq}
use torii_db.Store.Scan.Keys.{is_listed, keys-exact}
use torii_db.Store.Set.{set, set_default, set_nx, set_xx, put_entry}
use torii_db.Store.Set.Laws.{IsEntryOf, get-set}
use torii_db.Store.Set.Flags.{set_again-refused}
use torii_db.Store.SetField.{
  set_field, write_field, log_field, update_field, store_field, target_of, target_value,
}
use torii_db.Store.SetField.Expiry.{IsWritten, set_field-expiry}
use torii_db.Store.Ttl.{expire, ttl}
use torii_db.Store.Ttl.Laws.{get-expire_overflow, ttl-expire}
use torii_db.Store.Vector.{decode_vector, decode_vector-encode_vector, encode_vector}
use torii_db.Store.WalkSet.{walk_set}
use torii_db.Store.WalkSet.Laws.{walk_keys-walk_set}
use torii_db.Tests.{
  empty_db, runs, io, age, size, one_db, two_db, age_entry, size_entry, many, profile,
}
use torii_db.Utils.{walk_keys, atov}

get-set_example :
    (e : Entry) × ((get (pos 20) size two_db).1 ≡ some e)
    × IsEntryOf sample e size (codes "{}") (some (pos 50))
unfolding runs
get-set_example =
    get-set sample io (pos 11) (pos 20) size (codes "{}") set_default (some (pos 50)) one_db tt refl
      refl

-- A key with an expiry in the past, a SET NX behind it, and a DEL.
abbrev past_db : Db
past_db = (set sample io (pos 10) age (codes "5") set_nx (some (pos 15)) empty_db).0

set_again-refused_example :
    (set sample io (pos 20) age (codes "7") set_nx none past_db
      ≡ (past_db, some (key_already_exists age)))
    × (set sample io
          (pos 20)
          age
          (codes "7")
          set_xx
          none
          (del sample (λ n. io) (age ∷ []) past_db).0
        ≡ ((del sample (λ n. io) (age ∷ []) past_db).0, some (key_not_found age)))
unfolding runs
set_again-refused_example =
    set_again-refused sample io io (λ n. io) (pos 10) (pos 20) age (codes "5") (codes "7") set_nx
      (some (pos 15)) none empty_db refl

walk_keys-walk_set_example :
    walk_keys
      (walk_set (obj profile) (size ∷ size ∷ age ∷ []) (int (pos 6))).0
      (size ∷ size ∷ age ∷ [])
    ≡ some (int (pos 6))
unfolding runs
walk_keys-walk_set_example =
    walk_keys-walk_set (obj profile) (size ∷ size ∷ age ∷ []) (int (pos 6)) (λ h. cc) refl

ato_filter-ne-out_of_fuel_example : ato_filter (codes "(age GT 5 OR NOT size EQ 2)") ≢ out_of_fuel
ato_filter-ne-out_of_fuel_example = ato_filter-ne-out_of_fuel (codes "(age GT 5 OR NOT size EQ 2)")

lookup-del_example :
    lookup age (del sample (λ n. io) (size ∷ age ∷ []) two_db).0.entries
    ≡ (if is_in age (size ∷ age ∷ []) then none else lookup age two_db.entries)
lookup-del_example = lookup-del sample (λ n. io) (size ∷ age ∷ []) age two_db

ttl-expire_example :
    (ttl (pos 20) (pos 20) age (expire sample io (pos 20) age (pos 60) two_db).0).1 ≡ pos 60
unfolding runs
ttl-expire_example =
    ttl-expire sample io (pos 20) age 60 age_entry two_db refl (omega arith)
      (omega arith, omega arith) (omega arith, omega arith)

get-expire_overflow_example :
    (get (pos 20) age (expire sample io (pos 20) age (pos 9223372036854775807) two_db).0).1 ≡ none
unfolding runs
get-expire_overflow_example =
    get-expire_overflow sample io 20 age 9223372036854775807 age_entry two_db refl (omega arith)
      (omega arith) (omega arith)

keys-exact_example :
    IsSorted text_ltb (keys sample (pos 20) (codes "*") two_db)
    × ((k : Text)
        → is_in k (keys sample (pos 20) (codes "*") two_db)
          ≡ is_listed sample (pos 20) (codes "*") k (lookup k two_db.entries))
unfolding runs
keys-exact_example = keys-exact sample (pos 20) (codes "*") two_db (refl, (refl, tt))

slice_scan-eq_example :
    slice_scan
      (scan_keys (pos 20) two_db.entries (λ k e. some (record { display = k; ts = entry_time e })))
      many
    ≡ scan_keys
        (pos 20)
        two_db.entries
        (λ k e. some (record { display = k; ts = entry_time e }))
        many
slice_scan-eq_example =
    slice_scan-eq (pos 20) two_db.entries (λ k e. some (record { display = k; ts = entry_time e }))
      many

decode_vector-encode_vector_example :
    decode_vector sample (encode_vector sample (1065353216 ∷ 3212836864 ∷ []))
    ≡ some (1065353216 ∷ 3212836864 ∷ [])
decode_vector-encode_vector_example =
    decode_vector-encode_vector sample (1065353216 ∷ 3212836864 ∷ []) sample-Base64Laws
      (omega arith, (omega arith, tt))

set_field-expiry_example :
    (f : Entry) × (set_field sample io (pos 12) size (age ∷ []) (codes "1") set_default none two_db
      ≡ add_to_aof sample io (codes "SET") size f.value none (put_entry size f two_db))
    × IsWritten sample
        (walk_set
          (target_value (target_of (parse_and_cache sample size_entry).1))
          (age ∷ [])
          (atov sample (codes "1")))
        size_entry.expire_at
        f
unfolding runs set_field write_field log_field update_field store_field set_parsed target_of atov
set_field-expiry_example =
    set_field-expiry sample io (pos 12) size (codes "1") (age ∷ []) size_entry two_db refl refl refl

parse_name-file_name_example :
    parse_name (file_name 42 snap) ≡ (if ltb 42 (10 ^ 8) then some (42, snap) else none)
parse_name-file_name_example = parse_name-file_name 42 snap
