-- ===== src/Store/Db.antt =====
-- The state of one database (`db` of core/store/store.go), the files below its directory, and what
-- the operating system answers in the course of one log write.
use torii_db.Base.{
  ℕ, ℤ, Text, Dict, Bool, Option, none, some, List, [], ◌∷◌, ◌++◌, ◌==◌, if◌then◌else◌, ◌≡◌, refl,
  arith,
}
use torii_db.Store.Entry.{Entry}
use torii_db.Store.WalkSet.{WalkError}

-- Numbered files: `00000007.log` is the file 7 among the logs.
abbrev pub Files : Type 0
Files = List (ℕ × Text)

-- A file is found by its name, but a listing of the directory is read with `parseName`, which takes
-- names of eight digits only: numbers below this one.
abbrev pub name_limit : ℕ
name_limit = 100000000

unfoldable pub file_get : ℕ → Files → Option Text
file_get n [] = none
file_get n ((m, text) ∷ fs) = if m == n then some text else file_get n fs

unfoldable pub file_put : ℕ → Text → Files → Files
file_put n text [] = (n, text) ∷ []
file_put n text ((m, old) ∷ fs) = if m == n then (n, text) ∷ fs else (m, old) ∷ file_put n text fs

unfoldable pub file_remove : ℕ → Files → Files
file_remove n [] = []
file_remove n ((m, text) ∷ fs) =
    let rest = file_remove n fs in if m == n then rest else (m, text) ∷ rest

abbrev pub text_of : Option Text → Text
text_of none = []
text_of (some text) = text

-- O_APPEND with O_CREATE
unfoldable pub file_append : ℕ → Text → Files → Files
file_append n more fs = file_put n (text_of (file_get n fs) ++ more) fs

pub file_get-file_put :
    (n m : ℕ) (text : Text) (fs : Files)
    → file_get m (file_put n text fs) ≡ (if n == m then some text else file_get m fs)
unfolding file_get file_put
file_get-file_put n m text [] = refl
file_get-file_put n m text ((k, old) ∷ fs) = ground (arith, file_get-file_put n m text fs)

pub file_get-file_remove :
    (n m : ℕ) (fs : Files)
    → file_get m (file_remove n fs) ≡ (if n == m then none else file_get m fs)
unfolding file_get file_remove
file_get-file_remove n m [] = ground arith
file_get-file_remove n m ((k, old) ∷ fs) = ground (arith, file_get-file_remove n m fs)

pub record Disk : Type 0 where
  pub dir : Bool
  pub snaps : Files
  pub logs : Files
  pub temps : Files

-- `aof` is the number of the log that is open, `load_err` whether `loadErr` is set.
pub record Db : Type 0 where
  pub entries : Dict Entry
  pub disk : Disk
  pub aof : Option ℕ
  pub num : ℕ
  pub load_err : Bool
  pub log_size : ℕ
  pub snap_size : ℕ
  pub loaded : Bool

-- Which of the system calls of one log write, and of the compaction that it may start, succeed;
-- how much of a line or a snapshot a failed write has written; the clock at the log record and at
-- the snapshot.
pub record Io : Type 0 where
  pub dir_ok : Bool
  pub open_ok : Bool
  pub write_ok : Bool
  pub written : ℕ
  pub sync_ok : Bool
  pub temp_ok : Bool
  pub rename_ok : Bool
  pub sync_dir_ok : Bool
  pub next_ok : Bool
  pub stamp : ℤ
  pub sweep : ℤ

pub data Error : Type 0 where
  key_already_exists key_not_found : Text → Error
  not_exist not_json_type not_json_object unmarshal_failed marshal_failed : Error
  not_number_type parse_float_failed field_not_found field_not_number : Error
  walk_failed : WalkError → Error
  check_dir_failed open_failed write_failed sync_failed : Error
  snapshot_failed rename_failed sync_dir_failed replay_failed : Error
  no_embedder vector_text_empty embed_failed : Error
  vector_missing vector_mismatch : Error
  invalid_db_index : ℤ → Error

-- A command on a database returns the new state, and an error or nil.
abbrev pub Outcome : Type 0
Outcome = Db × Option Error

-- The result of a command that returns a value beside its error.
pub data Result {ℓ} (A : Type ℓ) : Type ℓ where
  ok : A → Result A
  failed : Error → Result A
