-- ===== src/Tests.antt =====
-- Runs of the model on concrete states, and each theorem with hypotheses at one of them.
pub mod Durability
pub mod Failures
pub mod Commands
pub mod Daemon
pub mod Processes
pub mod Search
use torii_db.Base.{
  [], List, Text, arith, codes, erase, false, inl, insert, is_in, length, lookup, negsuc, none, pos,
  refl, some, suc, text_ltb, true, zero, ℕ, ◌∷◌, ◌++◌, ◌≡◌, ◌≢◌, ◌>>=◌, ◌+◌, if◌then◌else◌, wrap64,
  ◌+ℤ◌, ℤ, ◌≤◌, ◌<◌,
}
use torii_db.Base.Number.{format_int}
use torii_db.Base.Sort.{IsSorted, sort}
use torii_db.Filter.Operation.{ato_operation}
use torii_db.Filter.Parser.{
  ato_filter, finish, parse_or, parse_words, split_all, split_word, out_of_fuel,
}
use torii_db.Filter.Parser.Total.{ato_filter-ne-out_of_fuel}
use torii_db.Json.{Members, end, int, member, member_erase, member_get, member_set, null, obj}
use torii_db.Record.{Record}
use torii_db.Samples.{sample, sample-Base64Laws, sample-CodecLaws}
use torii_db.Samples.Codec.{encode_record, decode_record}
use torii_db.Store.Aof.{
  add_to_aof, add_to_aof_with_vector, after_init, append_bytes, append_line, init_log, make_dir,
  open_log, write_aof,
}
use torii_db.Store.Clean.{clean_expired}
use torii_db.Store.Compact.{
  record_vector, encode_line, compact, open_next_log, rename_snapshot, write_temp, serialize,
  entry_record, gc_older_than,
}
use torii_db.Store.Compact.Sweep.{gc_older_than-exact}
use torii_db.Store.Db.{
  Db, Io, file_append, file_get, file_put, key_already_exists, key_not_found, text_of, Disk,
}
use torii_db.Store.Del.{del, del_found, log_entry}
use torii_db.Store.Del.Laws.{length-del, lookup-del}
use torii_db.Store.Durable.{IsDurable, log_text, Agree}
use torii_db.Store.Durable.Append.{replay_text-encode_line, write_aof-log}
use torii_db.Store.Durable.Cleaning.{clean_expired-IsDurable}
use torii_db.Store.Durable.Commands.{
  del-IsDurable, expire-IsDurable, persist-IsDurable, set-IsDurable, get-IsDurable,
}
use torii_db.Store.Durable.Counters.{incr-IsDurable}
use torii_db.Store.Durable.Invariant.{IsWell, set-IsWell, del-IsWell, set_expiry-IsWell}
use torii_db.Store.Durable.Restart.{load_all-HoldsFrom, load_all-IsDurable, IsLoaded, replay_texts}
use torii_db.Store.Durable.Snapshot.{serialize-Agree, compact-IsDurable}
use torii_db.Store.Durable.Torn.{replay_text-torn}
use torii_db.Store.Entry.{Entry, detect_type, is_expired, set_value, parse_and_cache}
use torii_db.Store.Get.{get, read_entry}
use torii_db.Store.Incr.{incr, add_number, with_number, bump_entry}
use torii_db.Store.Load.{load_all, load_all-total, snap_numbers, listed, Reads}
use torii_db.Store.Replay.{apply_lines, apply_record, lines_of, replay_text}
use torii_db.Store.Scan.{entry_time, keys, matching_keys, scan_keys, slice_scan}
use torii_db.Store.Scan.Chunks.{slice_scan-eq}
use torii_db.Store.Scan.Keys.{is_listed, keys-exact}
use torii_db.Store.Set.{
  check_flag, put_entry, set, set_default, set_entry, set_nx, set_xx, with_cache, written_entry,
}
use torii_db.Store.Set.Laws.{IsEntryOf, get-set, lookup-set}
use torii_db.Store.Ttl.{expire, persist, set_expiry, ttl, ttl_of}
use torii_db.Store.Ttl.Laws.{get-expire_overflow, ttl-expire, ttl-persist}
use torii_db.Store.Vector.{decode_vector, decode_vector-encode_vector, encode_vector, is_internal}
use torii_db.Store.WalkSet.{not_json_or_array, set_last, walk_set}
use torii_db.Store.WalkSet.Laws.{walk_keys-walk_set, walk_set-error, walk_set-frame, walk_set-null}
use torii_db.Utils.{child, index_of, walk_keys, vtoa_float}
use torii_db.Utils.Walk.{walk_keys-append}

abbrev pub io : Io
io = record {
  dir_ok = true;
  open_ok = true;
  write_ok = true;
  written = 0;
  sync_ok = true;
  temp_ok = true;
  rename_ok = true;
  sync_dir_ok = true;
  next_ok = true;
  stamp = pos 100;
  sweep = pos 100;
}

abbrev pub empty_db : Db
empty_db = record {
  entries = [];
  disk = record { dir = true; snaps = []; logs = []; temps = [] };
  aof = none;
  num = 1;
  load_err = false;
  log_size = 0;
  snap_size = 0;
  loaded = true;
}

abbrev pub age : Text
age = codes "age"

abbrev pub size : Text
size = codes "size"

abbrev pub one_db : Db
one_db = (set sample io (pos 10) age (codes "5") set_nx none empty_db).0

abbrev pub two_db : Db
two_db = (set sample io (pos 11) size (codes "{}") set_default (some (pos 50)) one_db).0

abbrev pub age_entry : Entry
age_entry = set_entry sample (pos 10) age (codes "5") none none

abbrev pub size_entry : Entry
size_entry = set_entry sample (pos 11) size (codes "{}") (some (pos 50)) none

abbrev pub del_record : Record
del_record = record {
  timestamp = pos 100;
  command = codes "DEL";
  key = age;
  value = [];
  expire_at = none;
  vector = none;
}

pub repeat : ℕ → Text → List Text
repeat zero key = []
repeat (suc n) key = key ∷ repeat n key

-- More keys than a chunk has.
abbrev pub many : List Text
many = repeat 1500 age

abbrev pub profile : Members
profile = member age (int (pos 5)) (member size (obj (member age null end)) end)

abbrev pub old_files : Disk
old_files = record {
  dir = true;
  snaps = (1, age) ∷ (2, size) ∷ (3, age) ∷ [];
  logs = (1, age) ∷ (2, age) ∷ (3, size) ∷ (4, age) ∷ [];
  temps = [];
}

-- Opens every definition that the runs below go through.
unfoldable pub runs : Unit {0}
unfolding set check_flag set_entry written_entry set_value with_cache put_entry detect_type
    add_to_aof add_to_aof_with_vector write_aof init_log make_dir open_log after_init append_line
    append_bytes file_append encode_record file_put file_get record_vector encode_line is_expired
    lookup insert erase del del_found set_expiry expire persist get read_entry ttl ttl_of walk_set
    set_last walk_keys child member_get member_set member_erase index_of ato_filter parse_words
    split_all split_word parse_or finish ato_operation keys matching_keys is_internal load_all
    format_int wrap64 ◌+ℤ◌ parse_and_cache compact open_next_log rename_snapshot write_temp
    serialize entry_record snap_numbers listed sort replay_text lines_of apply_lines incr add_number
    with_number bump_entry log_entry vtoa_float
runs = tt
