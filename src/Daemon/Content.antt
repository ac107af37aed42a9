-- ===== src/Daemon/Content.antt =====
-- core/daemon/content.go: the JSON content of a request as the text that is stored, and back.
use torii_db.Base.{
  Text, codes, text_eq, trim_space, Bool, true, false, ◌||◌, ◌&&◌, Option, none, some, is_empty,
  if◌then◌else◌,
}
use torii_db.External.{External}
use torii_db.Store.Entry.{ValueType, type_string, type_date}
use torii_db.Daemon.Protocol.{Wire}

pub data ContentError : Type 0 where
  content_required content_invalid : ContentError

-- What is stored, or why the content is refused.
pub data Stored : Type 0 where
  stored : Text → Stored
  refused : ContentError → Stored

abbrev pub describe_content : ContentError → Text
describe_content content_required = codes "content is required"
describe_content content_invalid = codes "content is not valid json"

-- The value that is put into JSON: raw JSON, or a string.
pub data Content : Type 0 where
  raw_message : Text → Content
  plain : Text → Content

-- The types whose values are put in as they are.
abbrev pub is_raw_type : ValueType → Bool
is_raw_type type_string = false
is_raw_type type_date = false
is_raw_type _ = true

abbrev compacted : Option Text → Stored
compacted none = refused content_invalid
compacted (some text) = stored text

abbrev unquoted : Wire → Text → Option Text → Stored
unquoted wire trimmed (some text) = stored text
unquoted wire trimmed none = compacted (wire.compact trimmed)

unfoldable pub encode_content : Wire → Text → Stored
encode_content wire raw =
    let trimmed = trim_space raw in
    if is_empty trimmed || text_eq trimmed (codes "null")
    then refused content_required
    else unquoted wire trimmed (wire.unmarshal_string trimmed)

unfoldable pub decode_content : External → ValueType → Text → Content
decode_content ext type value =
    if is_raw_type type && ext.json_valid value then raw_message value else plain value

-- json.Marshal of a content
unfoldable pub marshal_content : Wire → Content → Option Text
marshal_content wire (raw_message text) = wire.marshal_raw text
marshal_content wire (plain text) = some (wire.marshal_string text)
