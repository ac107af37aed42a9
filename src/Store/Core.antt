-- ===== src/Store/Core.antt =====
-- The store and its sessions (`core`, `DB`, `Select` of core/store/store.go), and
-- `SetVector` of core/store/set.go, which leaves a job for the background.
pub mod Frame
pub mod Session
use torii_db.Base.{
  ℕ, ℤ, pos, negsuc, Text, trim_space, false, Option, none, some, List, [], ◌∷◌, ◌++◌, get_or,
  is_empty, ltb, if◌then◌else◌,
}
use torii_db.External.{External}
use torii_db.Store.Db.{Disk, Db, Io, Error, no_embedder, vector_text_empty, invalid_db_index}
use torii_db.Store.Load.{Reads, ensure_loaded}
use torii_db.Store.Set.{SetFlag, set}
use torii_db.Store.Heap.{set_elem}
use torii_db.Store.Search.{Embedder, attach_vector}

abbrev pub max_db : ℕ
max_db = 16

-- A vector to be attached: the database, the key and the text.
pub record Job : Type 0 where
  pub db : ℕ
  pub key : Text
  pub text : Text

-- `dbs` is shared by all sessions of a store; `current` and the embedder are a session's own.
-- `jobs` are the goroutines that `SetVector` has started.
pub record Core : Type 0 where
  pub dbs : List Db
  pub current : ℕ
  pub embedder : Option Embedder
  pub jobs : List Job

-- What a command gets from outside: the clock at its start and at a later reading, the system's
-- answers at each log write, which files of each database can be read, and the service's vector.
pub record Env : Type 0 where
  pub now : ℤ
  pub later : ℤ
  pub io : ℕ → Io
  pub reads : ℕ → Reads
  pub embedded : Text → Option (List ℕ)

-- A database before it is loaded.
abbrev pub unloaded : Disk → Db
unloaded disk = record {
  entries = [];
  disk = disk;
  aof = none;
  num = 0;
  load_err = false;
  log_size = 0;
  snap_size = 0;
  loaded = false;
}

abbrev pub no_disk : Disk
no_disk = record { dir = false; snaps = []; logs = []; temps = [] }

unfoldable pub select : ℤ → Core → Core × Option Error
select (negsuc n) c = (c, some (invalid_db_index (negsuc n)))
select (pos n) c =
    if ltb n max_db then (record c { current = n }, none) else (c, some (invalid_db_index (pos n)))

module _ (ext : External) where
  -- A command on the current database, which is loaded first if it has not been.
  unfoldable pub on_db {ℓ} : {A : Type ℓ} → Env → (Db → Db × A) → Core → Core × A
  on_db env command c =
      let d = ensure_loaded ext (env.reads c.current) (get_or c.dbs c.current (unloaded no_disk)) in
      let (d', result) = command d in (record c { dbs = set_elem c.dbs c.current d' }, result)

  set_vector_done : Text → Text → Core × Option Error → Core × Option Error
  set_vector_done key value (c, some err) = (c, some err)
  set_vector_done key value (c, none) = (
    record c { jobs = c.jobs ++ (record { db = c.current; key = key; text = value } ∷ []) },
    none,
  )

  set_vector_with :
      Option Embedder → Env → Text → Text → SetFlag → Option ℤ → Core → Core × Option Error
  set_vector_with none env key value flag expire_at c = (c, some no_embedder)
  set_vector_with (some emb) env key value flag expire_at c =
      if is_empty (trim_space value)
      then (c, some vector_text_empty)
      else set_vector_done key value
          (on_db env (set ext (env.io 0) env.now key value flag expire_at) c)

  unfoldable pub set_vector : Env → Text → Text → SetFlag → Option ℤ → Core → Core × Option Error
  unfolding set_vector_with set_vector_done
  set_vector env key value flag expire_at c =
      set_vector_with c.embedder env key value flag expire_at c

  attach_to : Env → Job → Embedder → Db → Db
  attach_to env job emb d =
      attach_vector ext env.io env.now emb (env.embedded job.text) job.key job.text
        (ensure_loaded ext (env.reads job.db) d)

  run_job : Env → Job → Option Embedder → List Job → Core → Core
  run_job env job none rest c = record c { jobs = rest }
  run_job env job (some emb) rest c = record c {
    jobs = rest;
    dbs = set_elem c.dbs job.db (attach_to env job emb (get_or c.dbs job.db (unloaded no_disk)));
  }

  -- The oldest job runs.
  unfoldable pub background : Env → List Job → Core → Core
  unfolding run_job attach_to
  background env [] c = c
  background env (job ∷ rest) c = run_job env job c.embedder rest c
