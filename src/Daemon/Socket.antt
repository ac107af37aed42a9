-- ===== src/Daemon/Socket.antt =====
-- core/daemon/socket.go, and `New` of core/daemon/daemon.go.
pub mod Laws
use torii_db.Base.{
  ℕ, Text, codes, Bool, true, false, Option, none, some, List, [], ◌∷◌, ◌++◌, take, ◌==◌, is_empty,
  if◌then◌else◌,
}
use torii_db.Base.Number.{format_nat}
use torii_db.External.{External}
use torii_db.Daemon.Pool.{Pool, new_client}
use torii_db.Embedding.{Settings}
use torii_db.Store.Close.{NewError, Opened, opened, not_opened, new_store}
use torii_db.Store.Core.{Core}
use torii_db.Store.Db.{Disk}

-- What a dial of a path meets: ENOENT, ECONNREFUSED, a server, or another error.
pub data AtPath : Type 0 where
  missing stale live unreachable : AtPath

-- `none` is an error of the probe.
unfoldable pub probe_socket : AtPath → Option Bool
probe_socket live = some true
probe_socket missing = some false
probe_socket stale = some false
probe_socket unreachable = none

pub data Listened : Type 0 where
  listening already_running not_probed not_removed not_bound : Listened

-- How far a call of `listenSocket` is: before its probe, behind it, behind the removal of the old
-- socket, or at its end.
pub data Attempt : Type 0 where
  idle probed removed : Attempt
  ended : Listened → Attempt

abbrev pub behind_probe : Option Bool → Attempt
behind_probe none = ended not_probed
behind_probe (some true) = ended already_running
behind_probe (some false) = probed

-- The next system call of an attempt, which succeeds or fails, at what stands at the path: nothing
-- keeps other processes from theirs between two of them. A bind takes a path where nothing is.
unfoldable pub attempt_step : Bool → AtPath → Attempt → AtPath × Attempt
attempt_step ok s idle = (s, behind_probe (probe_socket s))
attempt_step true s probed = (missing, removed)
attempt_step false s probed = (s, ended not_removed)
attempt_step true missing removed = (live, ended listening)
attempt_step ok s removed = (s, ended not_bound)
attempt_step ok s (ended result) = (s, ended result)

-- What stands at one path, and the attempts of all processes to listen there.
abbrev pub Attempts : Type 0
Attempts = AtPath × (ℕ → Attempt)

unfoldable pub step_of : ℕ → AtPath × Attempt → (ℕ → Attempt) → Attempts
step_of i (s, a) attempts = (s, λ j. if i == j then a else attempts j)

-- The steps of the attempts, in the order in which they happen.
unfoldable pub run_attempts : List (ℕ × Bool) → Attempts → Attempts
run_attempts [] state = state
run_attempts ((i, ok) ∷ steps) (s, attempts) =
    run_attempts steps (step_of i (attempt_step ok s (attempts i)) attempts)

-- What stands at the paths.
abbrev pub Sockets : Type 0
Sockets = Text → AtPath

-- CheckDir of the file system package, which makes the directory; filepath.Abs and EvalSymlinks.
pub record Dirs : Type 0 where
  pub check_dir : Text → Bool
  pub abs : Text → Option Text
  pub eval_symlinks : Text → Option Text

abbrev real_path : Dirs → Option Text → Option Text
real_path dirs none = none
real_path dirs (some path) = dirs.eval_symlinks path

unfoldable pub resolve_dir : Dirs → Text → Option Text
resolve_dir dirs dir = if dirs.check_dir dir then real_path dirs (dirs.abs dir) else none

unfoldable pub resolve_socket : External → ℕ → Text → Text
resolve_socket ext uid dir =
    codes "/tmp/toriidb-"
    ++ (format_nat uid ++ (codes "-" ++ (take 16 (ext.sha256_hex dir) ++ codes ".sock")))

pub data Made : Type 0 where
  client_of : Text → Pool → Made
  server_of : Text → Core → Made
  dir_required not_resolved probe_failed : Made
  store_failed : NewError → Made

unfoldable pub made_server : Text → Opened → Made
made_server socket (not_opened err) = store_failed err
made_server socket (opened c) = server_of socket c

unfoldable pub made_at : Text → Option Bool → Opened → Made
made_at socket none store = probe_failed
made_at socket (some true) store = client_of socket new_client
made_at socket (some false) store = made_server socket store

-- The disks are those below a directory.
module _ (ext : External) (dirs : Dirs) (uid : ℕ) (settings : Settings)
    (disks : Text → ℕ → Disk) where
  unfoldable pub made_in : Sockets → List Text → Option Text → Made
  made_in sockets api_keys none = not_resolved
  made_in sockets api_keys (some dir) =
      let socket = resolve_socket ext uid dir in
      made_at socket (probe_socket (sockets socket))
        (new_store settings (dirs.check_dir dir) (disks dir) api_keys)

  unfoldable pub new : Sockets → Text → List Text → Made
  new sockets dir api_keys =
      if is_empty dir then dir_required else made_in sockets api_keys (resolve_dir dirs dir)
