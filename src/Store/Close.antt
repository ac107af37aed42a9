-- ===== src/Store/Close.antt =====
-- `New`, `Close` and a tick of the timer of core/store/store.go.
use torii_db.Base.{
  ℕ, zero, suc, ◌-◌, ℤ, pos, Text, Bool, Option, none, some, List, [], ◌∷◌, ◌++◌, if◌then◌else◌,
}
use torii_db.External.{External}
use torii_db.Embedding.{Client, Settings, embedding_client}
use torii_db.Store.Clean.{clean_expired}
use torii_db.Store.Compact.{compact, gc_older_than}
use torii_db.Store.Core.{Core, unloaded, max_db}
use torii_db.Store.Db.{Db, Disk, Error, Io, Outcome}
use torii_db.Store.Search.{Embedder}

pub data NewError : Type 0 where
  just_one_key no_dir : NewError

pub data Opened : Type 0 where
  opened : Core → Opened
  not_opened : NewError → Opened

-- The databases from 0 on, over the files of their directories.
unfoldable pub all_dbs : ℕ → (ℕ → Disk) → List Db
all_dbs zero disks = []
all_dbs (suc n) disks = all_dbs n disks ++ (unloaded (disks n) ∷ [])

-- With no key for the service there is no embedder.
unfoldable pub embedder_of : Option Client → Option Embedder
embedder_of none = none
embedder_of (some c) = some (record { model = c.model; dim = pos c.dim })

unfoldable pub open_store : Settings → Bool → (ℕ → Disk) → Text → Opened
open_store settings dir_ok disks key =
    if dir_ok
    then opened (record {
      dbs = all_dbs max_db disks;
      current = 0;
      embedder = embedder_of (embedding_client settings key);
      jobs = [];
    })
    else not_opened no_dir

unfoldable pub new_store : Settings → Bool → (ℕ → Disk) → List Text → Opened
new_store settings dir_ok disks [] = open_store settings dir_ok disks []
new_store settings dir_ok disks (key ∷ []) = open_store settings dir_ok disks key
new_store settings dir_ok disks (a ∷ b ∷ keys) = not_opened just_one_key

-- One tick of `cleanTimer`
unfoldable pub clean_loaded : ℤ → List Db → List Db
clean_loaded now [] = []
clean_loaded now (d ∷ ds) = (if d.loaded then clean_expired now d else d) ∷ clean_loaded now ds

unfoldable pub clean_tick : ℤ → Core → Core
clean_tick now c = record c { dbs = clean_loaded now c.dbs }

-- Old generations go only where the compaction has succeeded; the log is closed in any case.
unfoldable pub release : Outcome → Outcome
release (d, some err) = (record d { aof = none }, some err)
release (d, none) = (record d { disk = gc_older_than (d.num - 1) d.disk; aof = none }, none)

unfoldable pub close_db : External → Io → Db → Outcome
close_db ext io d = if d.loaded then release (compact ext io d) else (d, none)

abbrev first_error : Option Error → Option Error → Option Error
first_error none later = later
first_error (some err) later = some err

-- The databases are closed at the same time; the error is that of one of them, here the first.
unfoldable pub close_dbs : External → (ℕ → Io) → List Db → List Db × Option Error
close_dbs ext env [] = ([], none)
close_dbs ext env (d ∷ ds) =
    let (after, err) = close_db ext (env 0) d in
    let (rest, later) = close_dbs ext (λ n. env (suc n)) ds in (after ∷ rest, first_error err later)

-- A second Close gives the error of the first; a Close waits for the background, so it is a step
-- of a store without jobs.
unfoldable pub close_store :
    External → (ℕ → Io) → Option (Option Error) → Core → Core × Option Error
close_store ext env (some result) c = (c, result)
close_store ext env none c =
    let (dbs, err) = close_dbs ext env c.dbs in (record c { dbs = dbs }, err)
