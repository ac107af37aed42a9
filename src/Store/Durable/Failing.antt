-- ===== src/Store/Durable/Failing.antt =====
-- A write that fails anywhere - at any system call, its own or one of the compaction that it starts
-- - leaves files that give the entries from before it or those behind it.
use mathlib.Core.Path.{subst}
use torii_db.Base.{
  ℕ, ◌+◌, ◌<◌, pos, if◌then◌else◌, ℤ, ◌≤ℤ◌, Text, Dict, Bool, true, false, not, none, some, [],
  length, take, ◌≡◌, ◌⊎◌, inl, inr, Option-cases, refl, arith,
}
use torii_db.External.{External}
use torii_db.Record.{Record}
use torii_db.Store.Aof.{
  init_log, make_dir, open_log, append_bytes, append_line, after_init, write_aof, needs_compaction,
}
use torii_db.Store.Compact.{encode_line}
use torii_db.Store.Db.{Db, name_limit, Io, Outcome, text_of, check_dir_failed, open_failed}
use torii_db.Store.Durable.{Agree, CodecLaws, log_text}
use torii_db.Store.Durable.Append.{replay_text-encode_line}
use torii_db.Store.Durable.Crash.{
  GivesBack, IsReady-GivesBack, IsRecoverable-GivesBack, compact-GivesBack,
}
use torii_db.Store.Durable.Fragment.{CutLaws, take-BeforeOrAfter}
use torii_db.Store.Durable.Invariant.{IsWell}
use torii_db.Store.Durable.Logged.{IsSafe}
use torii_db.Store.Durable.Ready.{IsHealthy, IsReady, append_bytes-IsReady, init_log-IsReady}
use torii_db.Store.Entry.{Entry}
use torii_db.Store.Replay.{apply_record, replay_text}
use torii_db.Store.Replay.Lines.{ends_line, ends_line-append}
use torii_db.Store.Vector.{Base64Laws}

chosen : (P : Outcome → Type 0) (b : Bool) (t e : Outcome) → P t → P e → P (if b then t else e)
chosen P true t e h k = h
chosen P false t e h k = k

abbrev all_well : Io
all_well = record {
  dir_ok = true;
  open_ok = true;
  write_ok = true;
  written = 0;
  sync_ok = true;
  temp_ok = true;
  rename_ok = true;
  sync_dir_ok = true;
  next_ok = true;
  stamp = pos 0;
  sweep = pos 0;
}

all_well-IsHealthy : IsHealthy all_well
all_well-IsHealthy = record {
  dirs = refl;
  opens = refl;
  writes = refl;
  syncs = refl;
  temps = refl;
  renames = refl;
  dir_syncs = refl;
  nexts = refl;
}

init_log-open : (io : Io) (d : Db) (k : ℕ) → d.aof ≡ some k → init_log io d ≡ (d, none)
unfolding init_log
init_log-open io d k e = ground arith

init_log-closed :
    (io : Io) (d : Db)
    → d.aof ≡ none
    → init_log io d ≡ (
        if not io.dir_ok
        then (d, some check_dir_failed)
        else if not io.open_ok
        then (make_dir d, some open_failed)
        else (open_log (make_dir d), none))
unfolding init_log
init_log-closed io d e = ground arith

-- The files of a database give these entries, or those.
abbrev pub OneOf : External → ℤ → Dict Entry → Dict Entry → Db → Type 0
OneOf ext now old m d =
    GivesBack ext now d.disk.snaps d.disk.logs old ⊎ GivesBack ext now d.disk.snaps d.disk.logs m

-- The texts of a record can be written down.
pub record IsRecord (ext : External) (r : Record) : Type 0 where
  pub command_ok : ext.utf8_valid r.command ≡ true
  pub vector_ok : ext.utf8_valid (text_of r.vector) ≡ true
  pub key_ok : ext.utf8_valid r.key ≡ true
  pub value_ok : ext.utf8_valid r.value ≡ true

-- The files give `old`, and the record makes the entries in memory of it.
pub record IsAhead (ext : External) (now : ℤ) (n : ℕ) (snap : Text) (r : Record) (old : Dict Entry)
    (d : Db) : Type 0 where
  pub ready : IsReady n snap d
  pub whole : ends_line (log_text d) ≡ true
  pub agree : Agree now (replay_text ext (log_text d) (replay_text ext snap [])) old
  pub well : IsWell ext d.entries
  pub change :
      (base : Dict Entry) → Agree now base old → Agree now (apply_record ext r base) d.entries

module _ (ext : External) (laws : CodecLaws ext) (b64 : Base64Laws ext) (cuts : CutLaws ext)
    (now : ℤ) where
  module _ (io : Io) (before : io.sweep ≤ℤ now) (n : ℕ) (snap : Text) (named : n + 1 < name_limit)
      (r : Record) (old : Dict Entry) (texts : IsRecord ext r) where
    still :
        (d : Db) {d' : Db}
        → IsAhead ext now n snap r old d
        → IsReady n snap d'
        → log_text d' ≡ log_text d
        → d'.entries ≡ d.entries
        → IsAhead ext now n snap r old d' × (d'.entries ≡ d.entries)
    still d a ready log same = (
      record {
        ready = ready;
        whole = rw log a.whole;
        agree = rw log a.agree;
        well = rw same a.well;
        change = rw same a.change;
      },
      same,
    )

    part-OneOf :
        (d : Db)
        → IsAhead ext now n snap r old d
        → OneOf ext now old d.entries (append_bytes (take io.written (encode_line ext r)) d)
    part-OneOf d a =
        let part = take io.written (encode_line ext r) in
        let (ready, log) = append_bytes-IsReady part d.log_size n snap d a.ready in
        let base = replay_text ext snap [] in
        elim (take-BeforeOrAfter ext laws cuts (log_text d) r base texts.command_ok texts.vector_ok
          texts.key_ok texts.value_ok a.whole io.written) [
            | inl same ↦ inl (
                IsReady-GivesBack ext now n snap _ old ready (omega (arith, ready.current))
                  (rw (log, same) a.agree))
            | inr applied ↦ inr (
                IsReady-GivesBack ext now n snap _ d.entries ready (omega (arith, ready.current))
                  (rw (log, applied) (a.change _ a.agree)))
          ]

    written-IsSafe :
        (d : Db) (size : ℕ)
        → IsAhead ext now n snap r old d
        → IsSafe ext now (record (append_bytes (encode_line ext r) d) { log_size = size })
    written-IsSafe d size a =
        let (ready, log) = append_bytes-IsReady (encode_line ext r) size n snap d a.ready in
        let applied =
          replay_text-encode_line ext (log_text d) r (replay_text ext snap []) laws texts.command_ok
            texts.vector_ok texts.key_ok texts.value_ok a.whole in
        record {
          well = unfold append_bytes in a.well;
          recovers = (
            n,
            snap,
            ready,
            record {
              whole =
                  rw log
                    (unfold encode_line in ends_line-append (log_text d) (ext.encode_record r));
              agree = rw (log, applied) (unfold append_bytes in a.change _ a.agree);
            },
          );
        }

    append_line-OneOf :
        (d : Db)
        → IsAhead ext now n snap r old d
        → OneOf ext now old d.entries (append_line ext io (encode_line ext r) d).0
    unfolding append_line encode_line append_bytes
    append_line-OneOf d a =
        let line = encode_line ext r in
        let size = d.log_size + length line in
        let written = record (append_bytes line d) { log_size = size } in
        let safe = written-IsSafe d size a in
        let same : written.entries ≡ d.entries = unfold append_bytes in refl in
        let small : written.num < name_limit = omega (arith, a.ready.current) in
        let kept = inr (
          rw same at
            (IsRecoverable-GivesBack ext now written safe.recovers (omega (arith, small)))) in
        let packed =
          inr (rw same at (compact-GivesBack ext laws b64 now io written before small safe)) in
        let P : Outcome → Type 0 = λ o. OneOf ext now old d.entries o.0 in
        chosen P (not io.write_ok) _ _ (part-OneOf d a)
          (chosen P (not io.sync_ok) _ _ kept (chosen P (needs_compaction written) _ _ packed kept))

    -- The log may have to be opened first, and that may fail.
    init_log-IsAhead :
        (d : Db)
        → IsAhead ext now n snap r old d
        → IsAhead ext now n snap r old (init_log io d).0 × ((init_log io d).0.entries ≡ d.entries)
    init_log-IsAhead d a = elim (Option-cases d.aof) [
      | inr (k, e) ↦ rw (init_log-open io d k e) (a, refl)
      | inl e ↦
          let P : Outcome → Type 0 =
            λ o. IsAhead ext now n snap r old o.0 × (o.0.entries ≡ d.entries) in
          let made : IsReady n snap (make_dir d) =
            unfold make_dir in
            record {
              generation = a.ready.generation;
              current = a.ready.current;
              opened = a.ready.opened;
              next = a.ready.next;
              loads = a.ready.loads;
            } in
          let there = init_log-IsReady all_well n snap d all_well-IsHealthy a.ready in
          let (ready, log, same, fine) = rw (init_log-closed all_well d e) at there in
          rw (init_log-closed io d e) (
            chosen P (not io.dir_ok) _ _ (a, refl)
              (chosen P (not io.open_ok) _ _
                (still d a made (unfold make_dir in refl) (unfold make_dir in refl))
                (still d a ready log same)))
    ]

    pub write_aof-OneOf :
        (d : Db)
        → IsAhead ext now n snap r old d
        → OneOf ext now old d.entries (write_aof ext io r d).0
    unfolding write_aof
    write_aof-OneOf d a =
        let (ahead, same) = init_log-IsAhead d a in after (init_log io d) refl ahead same
      where
        after :
            (o : Outcome)
            → init_log io d ≡ o
            → IsAhead ext now n snap r old o.0
            → o.0.entries ≡ d.entries
            → OneOf ext now old d.entries (after_init ext io r o).0
        after (d', none) e ahead same =
            unfold after_init in
            subst
              (λ (m : Dict Entry).
                OneOf ext now old m (append_line ext io (encode_line ext r) d').0)
              same (append_line-OneOf d' ahead)
        after (d', some err) e ahead same =
            unfold after_init in
            inl (
              IsReady-GivesBack ext now n snap d' old ahead.ready
                (omega (arith, ahead.ready.current)) ahead.agree)
