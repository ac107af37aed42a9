-- ===== src/Daemon/Protocol.antt =====
-- core/daemon/protocol.go: requests and responses.
use torii_db.Base.{
  ℕ, ℤ, pos, Text, codes, text_eq, Bool, false, Option, none, List, [], if◌then◌else◌,
}
use torii_db.Store.Db.{Error}

abbrev pub op_get : Text
op_get = codes "get"

abbrev pub op_entries : Text
op_entries = codes "entries"

abbrev pub op_set : Text
op_set = codes "set"

abbrev pub op_del : Text
op_del = codes "del"

abbrev pub op_ttl : Text
op_ttl = codes "ttl"

abbrev pub op_expire : Text
op_expire = codes "expire"

abbrev pub op_keys : Text
op_keys = codes "keys"

abbrev pub op_vsearch : Text
op_vsearch = codes "vsearch"

abbrev pub op_embedder : Text
op_embedder = codes "embedder"

abbrev pub kind_not_found : Text
kind_not_found = codes "not_found"

abbrev pub kind_bad_request : Text
kind_bad_request = codes "bad_request"

abbrev pub kind_no_embedder : Text
kind_no_embedder = codes "no_embedder"

abbrev pub kind_internal : Text
kind_internal = codes "internal"

-- `content` is the raw JSON.
pub record Request : Type 0 where
  pub op : Text
  pub db : ℤ
  pub key : Text
  pub keys : List Text
  pub pattern : Text
  pub text : Text
  pub contains : Text
  pub after : ℤ
  pub content : Text
  pub vector : Bool
  pub expire_at : Option ℤ
  pub ttl : Option ℤ
  pub limit : ℤ
  pub page : ℤ

-- A request with an operation and a database, and no more.
abbrev pub plain_request : Text → ℤ → Request
plain_request op db = record {
  op = op;
  db = db;
  key = [];
  keys = [];
  pattern = [];
  text = [];
  contains = [];
  after = pos 0;
  content = [];
  vector = false;
  expire_at = none;
  ttl = none;
  limit = pos 0;
  page = pos 0;
}

pub record ScanOption : Type 0 where
  pub contains : Text
  pub after : ℤ
  pub limit : ℤ

-- `Record` of this package.
pub record KeyRecord : Type 0 where
  pub db : ℤ
  pub key : Text
  pub type : Text
  pub content : Text
  pub created_at : ℤ
  pub updated_at : Option ℤ
  pub expire_at : Option ℤ

pub record ListResult : Type 0 where
  pub db : ℤ
  pub page : ℤ
  pub limit : ℤ
  pub total : ℕ
  pub keys : List Text

-- An empty `error` is none. Go's nil and empty slices are one.
pub record Response : Type 0 where
  pub error : Text
  pub kind : Text
  pub entry : Option KeyRecord
  pub entries : List KeyRecord
  pub list : Option ListResult
  pub keys : List Text
  pub ttl : Option ℤ
  pub count : Option ℕ
  pub embedder : Option Bool

abbrev pub empty_response : Response
empty_response = record {
  error = [];
  kind = [];
  entry = none;
  entries = [];
  list = none;
  keys = [];
  ttl = none;
  count = none;
  embedder = none;
}

unfoldable pub failure : Text → Text → Response
failure kind message = record empty_response { error = message; kind = kind }

-- The errors that `remoteError` makes; the first three are told apart by `errors.Is`.
pub data RemoteError : Type 0 where
  not_found bad_request no_embedder other : Text → RemoteError

unfoldable pub remote_error : Text → Text → RemoteError
remote_error kind message =
    if text_eq kind kind_not_found
    then not_found message
    else if text_eq kind kind_bad_request
    then bad_request message
    else if text_eq kind kind_no_embedder
    then no_embedder message
    else other message

-- What the package takes from `encoding/json`, and the wording of the store's errors.
pub record Wire : Type 0 where
  -- json.Unmarshal into a string, and json.Compact
  pub unmarshal_string : Text → Option Text
  pub compact : Text → Option Text
  -- json.Marshal of a json.RawMessage and of a string
  pub marshal_raw : Text → Option Text
  pub marshal_string : Text → Text
  -- json.Marshal and json.Unmarshal of a request and of a response
  pub encode_request : Request → Text
  pub decode_request : Text → Option Request
  pub encode_response : Response → Text
  pub decode_response : Text → Option Response
  -- `err.Error()` of an error of the store, and of json.Marshal
  pub describe : Error → Text
  pub marshal_failure : Text
  -- fmt's verb %q
  pub quote : Text → Text
