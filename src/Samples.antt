-- ===== src/Samples.antt =====
-- A simple `External` that meets the laws which the theorems take as hypotheses: numbers stand for
-- floats, and a record is coded by numbers above 10, each text with its length in front.
pub mod Codec
pub mod Marked
use torii_db.Base.{
  ℕ, zero, suc, ◌+◌, ◌*◌, ◌/◌, ℤ, pos, negsuc, Text, codes, text_eq, Bool, true, false, Option,
  none, some, List, [], ◌∷◌, leb, ltb, ◌==◌, ◌>>=◌, refl,
}
use torii_db.Base.Number.{parse_int, format_nat}
use torii_db.External.{External}
use torii_db.Json.{Json, obj, end}
use torii_db.Store.Vector.{Base64Laws}
use torii_db.Store.Durable.{CodecLaws}
use torii_db.Samples.Codec.{encode_record, decode_record, decode-encode, one_line}

abbrev pub natural : Option ℤ → Option ℕ
natural none = none
natural (some (pos n)) = some n
natural (some (negsuc n)) = none

abbrev pub tail_of : Text → Option (List ℕ)
tail_of [] = none
tail_of (c ∷ s) = some s

abbrev pub sample : External
sample = record {
  parse_float = λ s. natural (parse_int s);
  format_float = λ f. format_nat f;
  float_of_int = λ i. (elim i [ pos n ↦ n | negsuc n ↦ 0 ]);
  int_of_float = λ f. pos f;
  float_add = λ a b. a + b;
  float_mul = λ a b. a * b;
  float_div = λ a b. a / b;
  float_sqrt = λ a. a;
  float_eq = λ a b. a == b;
  float_lt = λ a b. ltb a b;
  float_le = λ a b. leb a b;
  float_of_float32 = λ n. n;
  json_valid = λ s. text_eq s (codes "{}");
  json_unmarshal = λ s. some (obj end);
  json_marshal = λ v. some (codes "{}");
  sprint = λ v. [];
  is_rfc3339 = λ s. false;
  is_date = λ s. false;
  path_match = λ pattern s. some true;
  encode_record = encode_record;
  decode_record = decode_record;
  utf8_valid = λ s. true;
  encode_payload = λ v d m. [];
  decode_payload = λ s. none;
  base64_encode = λ raw. b'=' ∷ raw;
  base64_decode = tail_of;
  sha256_hex = λ s. s;
}

pub sample-CodecLaws : CodecLaws sample
sample-CodecLaws = record {
  one_line = one_line;
  ascii = λ s h. refl;
  decode-encode = λ r c x k v. decode-encode r;
}

pub sample-Base64Laws : Base64Laws sample
sample-Base64Laws = record { decode-encode = λ raw. refl; encode-nonempty = λ b raw. refl }
