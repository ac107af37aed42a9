-- ===== src/Store/Durable/Torn.antt =====
-- A log whose last line was cut off by a crash or a failed write.
use torii_db.Base.{
  Text, Dict, none, [], ◌∷◌, ◌++◌, All-append, ◌≡◌, ◌≢◌, sym, ap, arith, ◌∙◌, true, ℕ,
}
use mathlib.Core.List.{append_assoc}
use torii_db.External.{External}
use torii_db.Record.{Record}
use torii_db.Store.Entry.{Entry}
use torii_db.Store.Compact.{encode_line}
use torii_db.Store.Replay.{lines_of, apply_line, apply_lines, replay_text}
use torii_db.Store.Replay.Lines.{NoNewline, ends_line, lines_of-append, lines_of-line}
use torii_db.Store.Durable.{CodecLaws}
use torii_db.Store.Durable.Append.{apply_lines-append}

module _ (ext : External) where
  pub apply_lines-malformed :
      (line : Text) (m : Dict Entry)
      → ext.decode_record line ≡ none
      → apply_lines ext (line ∷ []) m ≡ m
  unfolding apply_lines apply_line
  apply_lines-malformed line m h = ground arith

  replay_text-malformed :
      (text body : Text) (m : Dict Entry)
      → NoNewline body
      → ends_line text ≡ true
      → ext.decode_record (body ++ 10 ∷ []) ≡ none
      → replay_text ext (text ++ (body ++ 10 ∷ [])) m ≡ replay_text ext text m
  unfolding replay_text
  replay_text-malformed text body m one whole h =
      rw
        (
          lines_of-append text (body ++ 10 ∷ []) whole,
          lines_of-line body one,
          apply_lines-append ext (lines_of text),
        )
        (apply_lines-malformed (body ++ 10 ∷ []) _ h)

  -- If the log ends in a torn line, a record that is appended behind it is lost: where whole lines
  -- are followed by a torn line and then by an encoded record, and the torn line with the record
  -- behind it does not decode, the replay gives what the whole lines alone give, if the record
  -- codec keeps its laws.
  pub replay_text-torn :
      (text torn : Text) (r : Record) (m : Dict Entry)
      → CodecLaws ext
      → NoNewline torn
      → ends_line text ≡ true
      → ext.decode_record (torn ++ encode_line ext r) ≡ none
      → replay_text ext (text ++ (torn ++ encode_line ext r)) m ≡ replay_text ext text m
  unfolding encode_line
  replay_text-torn text torn r m laws cut whole h =
      let e = append_assoc torn (ext.encode_record r) (10 ∷ []) in
      ap (λ (t : Text). replay_text ext (text ++ t) m) (sym e)
      ∙ replay_text-malformed text (torn ++ ext.encode_record r) m
          (All-append (λ (c : ℕ). c ≢ 10) torn (ext.encode_record r) cut (laws.one_line r)) whole
          (ap (λ (t : Text). ext.decode_record t) e ∙ h)
