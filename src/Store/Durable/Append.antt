-- ===== src/Store/Durable/Append.antt =====
-- An acknowledged log write puts one line at the end of the current log.
use torii_db.Base.{
  ◌+◌, Text, Dict, true, none, some, List, [], ◌∷◌, ◌++◌, or_else, ◌≡◌, refl, sym, arith, length,
  ◌∙◌, ap,
}
use torii_db.External.{External}
use torii_db.Record.{Record}
use torii_db.Store.Entry.{Entry}
use torii_db.Store.Db.{Db, Io, Outcome, file_get, file_append, text_of, file_get-file_put}
use torii_db.Store.Compact.{
  compact, open_next_log, rename_snapshot, remove_temp, write_temp, encode_line,
}
use torii_db.Store.Aof.{
  init_log, make_dir, open_log, append_bytes, append_line, after_init, write_aof,
}
use torii_db.Store.Replay.{lines_of, apply_line, apply_lines, apply_record, replay_text}
use torii_db.Store.Replay.Lines.{ends_line, lines_of-append, lines_of-line}
use torii_db.Store.Durable.{log_text, CodecLaws}

module _ (ext : External) where
  pub apply_lines-append :
      (ls ms : List Text) (m : Dict Entry)
      → apply_lines ext (ls ++ ms) m ≡ apply_lines ext ms (apply_lines ext ls m)
  unfolding apply_lines
  apply_lines-append [] ms m = refl
  apply_lines-append (l ∷ ls) ms m = apply_lines-append ls ms (apply_line ext l m)

  pub apply_lines-one :
      (line : Text) (r : Record) (m : Dict Entry)
      → ext.decode_record line ≡ some r
      → apply_lines ext (line ∷ []) m ≡ apply_record ext r m
  unfolding apply_lines apply_line
  apply_lines-one line r m h = ground arith

  -- Replaying a log of whole lines with one encoded record behind it is replaying the log and then
  -- applying that record, if the texts of the record are valid UTF-8 and the record codec keeps its
  -- laws.
  pub replay_text-encode_line :
      (text : Text) (r : Record) (m : Dict Entry)
      → CodecLaws ext
      → ext.utf8_valid r.command ≡ true
      → ext.utf8_valid (text_of r.vector) ≡ true
      → ext.utf8_valid r.key ≡ true
      → ext.utf8_valid r.value ≡ true
      → ends_line text ≡ true
      → replay_text ext (text ++ encode_line ext r) m ≡ apply_record ext r (replay_text ext text m)
  unfolding replay_text encode_line
  replay_text-encode_line text r m laws command_ok vector_ok key_ok value_ok whole =
      rw
        (
          lines_of-append text (ext.encode_record r ++ 10 ∷ []) whole,
          lines_of-line (ext.encode_record r) (laws.one_line r),
          apply_lines-append (lines_of text),
        )
        (apply_lines-one _ r _ (laws.decode-encode r command_ok vector_ok key_ok value_ok))

  -- A compaction that has succeeded without a new log has done nothing.
  compact-same_num :
      (io : Io) (d : Db)
      → (compact ext io d).1 ≡ none
      → (compact ext io d).0.num ≡ d.num
      → (compact ext io d).0 ≡ d
  unfolding compact open_next_log rename_snapshot remove_temp write_temp
  compact-same_num io d h same = ground arith

  append_line-log :
      (io : Io) (line : Text) (d : Db)
      → (append_line ext io line d).1 ≡ none
      → (append_line ext io line d).0.num ≡ d.num
      → log_text (append_line ext io line d).0 ≡ log_text d ++ line
  unfolding append_line append_bytes file_append
  append_line-log io line d h same =
      let n = or_else d.aof d.num in
      let done = append_bytes line d in
      let written = record done { log_size = d.log_size + length line } in
      ground (
        arith,
        compact-same_num io written,
        file_get-file_put n n (text_of (file_get n d.disk.logs) ++ line) d.disk.logs,
      )

  init_log-log :
      (io : Io) (d : Db)
      → (init_log io d).1 ≡ none
      → (log_text (init_log io d).0 ≡ log_text d) × ((init_log io d).0.num ≡ d.num)
  unfolding init_log make_dir open_log
  init_log-log io d h =
      ground
        (arith, file_get-file_put d.num d.num (text_of (file_get d.num d.disk.logs)) d.disk.logs)

  after_init-log :
      (io : Io) (r : Record) (o : Outcome)
      → (after_init ext io r o).1 ≡ none
      → (after_init ext io r o).0.num ≡ o.0.num
      → (o.1 ≡ none) × (log_text (after_init ext io r o).0 ≡ log_text o.0 ++ encode_line ext r)
  unfolding after_init
  after_init-log io r (d, none) h same = (refl, append_line-log io _ d h same)
  after_init-log io r (d, some err) h same = cc

  init_log-num : (io : Io) (d : Db) → (init_log io d).0.num ≡ d.num
  unfolding init_log make_dir open_log
  init_log-num io d = ground arith

  -- A log write that returned no error and left the number of the current log as it was has put
  -- exactly one encoded line at the end of the current log, whether or not the log had to be opened
  -- first.
  pub write_aof-log :
      (io : Io) (r : Record) (d : Db)
      → (write_aof ext io r d).1 ≡ none
      → (write_aof ext io r d).0.num ≡ d.num
      → log_text (write_aof ext io r d).0 ≡ log_text d ++ encode_line ext r
  unfolding write_aof
  write_aof-log io r d h same =
      let (began, written) =
        after_init-log io r (init_log io d) h (same ∙ sym (init_log-num io d)) in
      written ∙ ap (λ (t : Text). t ++ encode_line ext r) (init_log-log io d began).0
