-- ===== src/External.antt =====
-- What the program takes from Go's standard library and from services, and does not implement:
-- floating point, JSON text, dates, file globs, base64, SHA-256. They are parameters of the model:
-- a definition that uses them takes an `External`, and a theorem that relies on a law of theirs
-- names it as a hypothesis.
use torii_db.Base.{ℕ, ℤ, Text, Bool, Option, List}
use torii_db.Json.{Json, Float}
use torii_db.Record.{Record}

pub record External : Type 0 where
  -- strconv.ParseFloat(s, 64), and strconv.FormatFloat(f, 'f', -1, 64)
  pub parse_float : Text → Option Float
  pub format_float : Float → Text
  -- float64(n), int64(f), and the operators on float64
  pub float_of_int : ℤ → Float
  pub int_of_float : Float → ℤ
  pub float_add : Float → Float → Float
  pub float_mul : Float → Float → Float
  pub float_div : Float → Float → Float
  pub float_sqrt : Float → Float
  pub float_eq : Float → Float → Bool
  pub float_lt : Float → Float → Bool
  pub float_le : Float → Float → Bool
  -- float64(v) of a float32, given by its bits
  pub float_of_float32 : ℕ → Float
  -- json.Valid, json.Unmarshal into an `any`, json.Marshal, and fmt.Sprintf("%v")
  pub json_valid : Text → Bool
  pub json_unmarshal : Text → Option Json
  pub json_marshal : Json → Option Text
  pub sprint : Json → Text
  -- whether time.Parse takes a text, by time.RFC3339 and by "2006-01-02"
  pub is_rfc3339 : Text → Bool
  pub is_date : Text → Bool
  -- path.Match; `none` is a malformed pattern
  pub path_match : Text → Text → Option Bool
  -- json.Marshal and json.Unmarshal of an AOFRecord
  pub encode_record : Record → Text
  pub decode_record : Text → Option Record
  -- utf8.ValidString: json.Marshal replaces what is not valid UTF-8
  pub utf8_valid : Text → Bool
  -- json.Marshal and json.Unmarshal of an embedPayload: its text, dimension and model
  pub encode_payload : Text → ℤ → Text → Text
  pub decode_payload : Text → Option (Text × ℤ × Text)
  -- base64.StdEncoding, over bytes
  pub base64_encode : List ℕ → Text
  pub base64_decode : Text → Option (List ℕ)
  -- the hexadecimal SHA-256 digest
  pub sha256_hex : Text → Text
