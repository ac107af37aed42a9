-- ===== src/Store/Durable/Ready.antt =====
-- The files of a database on a healthy disk, from one log write to the next: the current log stands
-- behind the newest snapshot, also through the compaction that a write starts.
use torii_db.Base.{
  ℕ, suc, ◌+◌, ℤ, ◌≤ℤ◌, Text, true, false, not, ◌&&◌, none, some, [], ◌++◌, length, or_else,
  is_empty, if◌then◌else◌, ◌≡◌, ◌≢◌, refl, arith, Bool-cases, Option-cases, inl, inr, ◌⊎◌, ◌<◌,
}
use torii_db.External.{External}
use torii_db.Record.{Record}
use torii_db.Store.Aof.{
  init_log, make_dir, open_log, append_bytes, append_line, after_init, write_aof, needs_compaction,
}
use torii_db.Store.Compact.{
  serialize, compact, open_next_log, rename_snapshot, remove_temp, write_temp, encode_line,
}
use torii_db.Store.Db.{Db, Io, Outcome, file_get, file_append, text_of, file_get-file_put}
use torii_db.Store.Durable.{IsDurable, Agree, log_text, CodecLaws}
use torii_db.Store.Durable.Append.{replay_text-encode_line}
use torii_db.Store.Durable.Invariant.{IsWell}
use torii_db.Store.Durable.Snapshot.{compact-done, compact-IsDurable}
use torii_db.Store.Replay.{apply_record, replay_text}
use torii_db.Store.Replay.Lines.{ends_line, ends_line-append}
use torii_db.Store.Vector.{Base64Laws}
use torii_db.Store.Durable.Generation.{IsGeneration, IsGeneration-next}

-- Every system call of a log write succeeds.
pub record IsHealthy (io : Io) : Type 0 where
  pub dirs : io.dir_ok ≡ true
  pub opens : io.open_ok ≡ true
  pub writes : io.write_ok ≡ true
  pub syncs : io.sync_ok ≡ true
  pub temps : io.temp_ok ≡ true
  pub renames : io.rename_ok ≡ true
  pub dir_syncs : io.sync_dir_ok ≡ true
  pub nexts : io.next_ok ≡ true

-- The current log is the one behind the newest snapshot, and there is none behind it.
pub record IsReady (n : ℕ) (snap : Text) (d : Db) : Type 0 where
  pub generation : IsGeneration n snap d.disk.snaps
  pub current : d.num ≡ n + 1
  pub opened : or_else d.aof d.num ≡ d.num
  pub next : (k : ℕ) → d.num < k → file_get k d.disk.logs ≡ none
  pub loads : d.load_err ≡ false

-- The files give back what the memory holds, at `now`.
abbrev pub IsRecoverable : External → ℤ → Db → Type 0
IsRecoverable ext now d =
    (n : ℕ) × (snap : Text) × IsReady n snap d × IsDurable ext now (replay_text ext snap []) d

pub init_log-IsReady :
    (io : Io) (n : ℕ) (snap : Text) (d : Db)
    → IsHealthy io
    → IsReady n snap d
    → IsReady n snap (init_log io d).0
      × (log_text (init_log io d).0 ≡ log_text d)
      × ((init_log io d).0.entries ≡ d.entries)
      × ((init_log io d).1 ≡ none)
unfolding init_log make_dir open_log
init_log-IsReady io n snap d healthy r = elim (Option-cases d.aof) [
  | inr (k, e) ↦
      let same : init_log io d ≡ (d, none) = ground arith in rw same (r, refl, refl, refl)
  | inl e ↦
      let text = text_of (file_get d.num d.disk.logs) in
      let same = file_get-file_put d.num d.num text d.disk.logs in
      (
        record {
          generation = ground arith;
          current = ground arith;
          opened = ground arith;
          next = λ k h.
              ground (arith, file_get-file_put d.num k text d.disk.logs, r.next k (ground arith));
          loads = ground arith;
        },
        ground (arith, same),
        ground arith,
        ground arith,
      )
]

pub append_bytes-IsReady :
    (line : Text) (size n : ℕ) (snap : Text) (d : Db)
    → IsReady n snap d
    → IsReady n snap (record (append_bytes line d) { log_size = size })
      × (log_text (record (append_bytes line d) { log_size = size }) ≡ log_text d ++ line)
unfolding append_bytes file_append
append_bytes-IsReady line size n snap d r =
    let k = or_else d.aof d.num in
    let text = text_of (file_get k d.disk.logs) ++ line in
    let same = file_get-file_put k k text d.disk.logs in
    (
      record {
        generation = r.generation;
        current = r.current;
        opened = r.opened;
        next = λ j h. ground (arith, file_get-file_put k j text d.disk.logs, r.next j h);
        loads = r.loads;
      },
      ground (arith, same),
    )

module _ (ext : External) where
  compact-cases :
      (io : Io) (n : ℕ) (snap : Text) (d : Db)
      → IsHealthy io
      → IsReady n snap d
      → ((compact ext io d ≡ (d, none)))
        ⊎ (((compact ext io d).1 ≡ none)
            × ((compact ext io d).0.num ≢ d.num)
            × IsReady (suc n) (serialize ext io.sweep d.entries) (compact ext io d).0)
  unfolding compact open_next_log rename_snapshot remove_temp write_temp
  compact-cases io n snap d healthy r = elim (Bool-cases (is_empty d.entries && not d.disk.dir)) [
    | inl e ↦ inl (ground arith)
    | inr e ↦
        let buf = serialize ext io.sweep d.entries in
        let step = IsGeneration-next n snap buf d.disk.snaps r.generation in
        inr (
          ground arith,
          ground arith,
          record {
            generation = ground (arith, step);
            current = ground arith;
            opened = ground arith;
            next = λ k h. ground (
              arith,
              file_get-file_put (d.num + 1) k (text_of (file_get (d.num + 1) d.disk.logs))
                  d.disk.logs,
              r.next k,
            );
            loads = ground arith;
          },
        )
  ]

  -- What `compact` makes of a durable database.
  pub compact-IsRecoverable :
      (io : Io) (now : ℤ) (n : ℕ) (snap : Text) (d : Db)
      → CodecLaws ext
      → Base64Laws ext
      → IsHealthy io
      → io.sweep ≤ℤ now
      → IsWell ext d.entries
      → IsReady n snap d
      → IsDurable ext now (replay_text ext snap []) d
      → IsRecoverable ext now (compact ext io d).0
  compact-IsRecoverable io now n snap d laws b64 healthy before well r durable =
      elim (compact-cases io n snap d healthy r) [
        | inl same ↦ rw same (n, snap, r, durable)
        | inr (fine, moved, ready) ↦
            let fresh = r.next (d.num + 1) (omega arith) in
            let (written, empty, kept) = compact-done ext io d fresh fine moved in
            (
              suc n,
              serialize ext io.sweep d.entries,
              ready,
              rw written at (
                  (compact-IsDurable ext io now d laws b64 well.nodup well.stored before fresh fine
                    moved).0),
            )
      ]

  append_line-cases :
      (io : Io) (line : Text) (d : Db)
      → IsHealthy io
      → let written = record (append_bytes line d) { log_size = d.log_size + length line } in
        append_line ext io line d
        ≡ (if needs_compaction written then compact ext io written else (written, none))
  unfolding append_line
  append_line-cases io line d healthy = rw (healthy.writes, healthy.syncs) refl

  append_line-IsRecoverable :
      (io : Io) (now : ℤ) (n : ℕ) (snap line : Text) (d : Db)
      → CodecLaws ext
      → Base64Laws ext
      → IsHealthy io
      → io.sweep ≤ℤ now
      → IsWell ext d.entries
      → IsReady n snap d
      → ends_line (log_text d ++ line) ≡ true
      → Agree now (replay_text ext (log_text d ++ line) (replay_text ext snap [])) d.entries
      → IsRecoverable ext now (append_line ext io line d).0
  append_line-IsRecoverable io now n snap line d laws b64 healthy before well r whole agree =
      let size = d.log_size + length line in
      let written = record (append_bytes line d) { log_size = size } in
      let (ready, log) = append_bytes-IsReady line size n snap d r in
      let durable : IsDurable ext now (replay_text ext snap []) written = record {
        whole = rw log whole;
        agree = rw log (unfold append_bytes in agree);
      } in
      elim (Bool-cases (needs_compaction written)) [
        | inr small ↦
            let run = append_line-cases io line d healthy in
            rw run (rw small (n, snap, ready, durable))
        | inl large ↦
            let run = append_line-cases io line d healthy in
            rw run (
              rw large (
                compact-IsRecoverable io now n snap written laws b64 healthy before
                  (unfold append_bytes in well) ready durable))
      ]

  after_init-run :
      (io : Io) (r : Record) (o : Outcome)
      → o.1 ≡ none
      → after_init ext io r o ≡ append_line ext io (encode_line ext r) o.0
  unfolding after_init
  after_init-run io r (d, none) h = refl
  after_init-run io r (d, some err) h = cc

  -- A record that changes what the files give as the entries have changed.
  pub write_aof-IsRecoverable :
      (io : Io) (now : ℤ) (n : ℕ) (snap : Text) (r : Record) (d : Db)
      → CodecLaws ext
      → Base64Laws ext
      → IsHealthy io
      → io.sweep ≤ℤ now
      → ext.utf8_valid r.command ≡ true
      → ext.utf8_valid (text_of r.vector) ≡ true
      → ext.utf8_valid r.key ≡ true
      → ext.utf8_valid r.value ≡ true
      → IsWell ext d.entries
      → IsReady n snap d
      → ends_line (log_text d) ≡ true
      → Agree now
          (apply_record ext r (replay_text ext (log_text d) (replay_text ext snap [])))
          d.entries
      → IsRecoverable ext now (write_aof ext io r d).0
  unfolding write_aof
  write_aof-IsRecoverable io now n snap r d laws b64 healthy before c v k w well ready whole agree =
      let (began, log, entries, fine) = init_log-IsReady io n snap d healthy ready in
      rw (after_init-run io r (init_log io d) fine) (
        append_line-IsRecoverable io now n snap (encode_line ext r) (init_log io d).0 laws b64
          healthy before (rw entries well) began
          (unfold encode_line in
            ends_line-append (log_text (init_log io d).0) (ext.encode_record r))
          (rw (log, entries)
            (rw
              (replay_text-encode_line ext (log_text d) r (replay_text ext snap []) laws c v k w
                whole)
              agree)))
