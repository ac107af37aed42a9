-- ===== src/Store/Compact/Sweep.antt =====
-- What the removal of old files (core/store/gc.go) takes and leaves.
use torii_db.Base.{ℕ, ◌+◌, ◌≤◌, ◌<◌, Bool, none, [], ◌∷◌, ==_iff, if◌then◌else◌, ◌≡◌, arith}
use torii_db.Store.Db.{Files, Disk, file_get, name_limit}
use torii_db.Store.Compact.{is_old_snap, is_old_log, sweep_files, gc_older_than}

pub file_get-sweep_files :
    (old : ℕ → Bool) (num : ℕ) (fs : Files)
    → file_get num (sweep_files old fs) ≡ (if old num then none else file_get num fs)
unfolding file_get sweep_files
file_get-sweep_files old num [] = ground arith
file_get-sweep_files old num ((m, text) ∷ fs) =
    ground (arith, file_get-sweep_files old num fs, ==_iff m num)

-- The removal of old files for the number `keep` leaves every snapshot from `keep` - 1 on and every
-- log from `keep` on as it was, and removes all older ones whose names have eight digits; a file
-- whose number has more digits is left as it was.
pub gc_older_than-exact :
    (keep num : ℕ) (disk : Disk)
    → (keep ≤ num + 1 → file_get num (gc_older_than keep disk).snaps ≡ file_get num disk.snaps)
      × (keep ≤ num → file_get num (gc_older_than keep disk).logs ≡ file_get num disk.logs)
      × (num + 1 < keep → num < name_limit → file_get num (gc_older_than keep disk).snaps ≡ none)
      × (num < keep → num < name_limit → file_get num (gc_older_than keep disk).logs ≡ none)
      × (name_limit ≤ num
          → (file_get num (gc_older_than keep disk).snaps ≡ file_get num disk.snaps)
            × (file_get num (gc_older_than keep disk).logs ≡ file_get num disk.logs))
unfolding gc_older_than is_old_snap is_old_log
gc_older_than-exact keep num disk =
    let snaps = file_get-sweep_files (is_old_snap keep) num disk.snaps in
    let logs = file_get-sweep_files (is_old_log keep) num disk.logs in
    (
      λ h. ground (arith, snaps),
      λ h. ground (arith, logs),
      λ h named. ground (arith, snaps),
      λ h named. ground (arith, logs),
      λ long. (ground (arith, snaps), ground (arith, logs)),
    )
