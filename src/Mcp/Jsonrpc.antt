-- ===== src/Mcp/Jsonrpc.antt =====
-- The message types of crates/mcp-core/src/jsonrpc.rs. A numeric id is the bit pattern of its i64.
use oracle_automate.Prelude.{ℕ, String, Option, none, some}
use oracle_automate.Text.{Signed}
use oracle_automate.Json.{Json}

pub data MessageId : Type 0 where
  number : ℕ → MessageId
  string : String → MessageId
  null : MessageId

abbrev pub jsonrpc_version : String
jsonrpc_version = "2.0"

pub record Request : Type 0 where
  pub jsonrpc : String
  pub id : MessageId
  pub method : String
  pub params : Option Json

pub record Notification : Type 0 where
  pub jsonrpc : String
  pub method : String
  pub params : Option Json

pub record ErrorObject : Type 0 where
  pub code : Signed
  pub message : String
  pub data_value : Option Json

pub record Response : Type 0 where
  pub jsonrpc : String
  pub id : MessageId
  pub result : Option Json
  pub error : Option ErrorObject

pub data Message : Type 0 where
  request : Request → Message
  response : Response → Message
  notification : Notification → Message

unfoldable pub new_request : MessageId → String → Option Json → Request
new_request id method params = record {
  jsonrpc = jsonrpc_version;
  id = id;
  method = method;
  params = params;
}

unfoldable pub success : MessageId → Json → Response
success id result = record {
  jsonrpc = jsonrpc_version;
  id = id;
  result = some result;
  error = none;
}

unfoldable pub failure : MessageId → ErrorObject → Response
failure id error = record { jsonrpc = jsonrpc_version; id = id; result = none; error = some error }

unfoldable pub new_error : Signed → String → ErrorObject
new_error code message = record { code = code; message = message; data_value = none }
