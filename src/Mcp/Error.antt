-- ===== src/Mcp/Error.antt =====
-- crates/mcp-core/src/error.rs. An error of `serde_json` or of `std::io` is kept as its text.
use oracle_automate.Prelude.{ℕ, String, true, if◌then◌else◌}
use oracle_automate.Text.{◌<>◌, decimal, Signed}

pub data ErrorCode : Type 0 where
  parse_error invalid_request method_not_found invalid_params internal_error : ErrorCode
  timeout tool_busy upstream_unavailable : ErrorCode
  access_denied schema_violation unknown_tool : ErrorCode
  partial_result stale_cache : ErrorCode

abbrev pub minus : ℕ → Signed
minus n = record { negative = true; magnitude = n }

unfoldable pub as_i32 : ErrorCode → Signed
as_i32 parse_error = minus 32700
as_i32 invalid_request = minus 32600
as_i32 method_not_found = minus 32601
as_i32 invalid_params = minus 32602
as_i32 internal_error = minus 32603
as_i32 timeout = minus 32100
as_i32 tool_busy = minus 32004
as_i32 upstream_unavailable = minus 32101
as_i32 access_denied = minus 32200
as_i32 schema_violation = minus 32201
as_i32 unknown_tool = minus 32202
as_i32 partial_result = minus 32300
as_i32 stale_cache = minus 32301

pub data Error : Type 0 where
  json io : String → Error
  protocol_error : Signed → String → Error
  transport_closed : Error
  transport invalid_response : String → Error
  timed_out : Error
  other : String → Error

pub data McpResult {ℓ} (A : Type ℓ) : Type ℓ where
  ok : A → McpResult A
  err : Error → McpResult A

abbrev pub protocol : ErrorCode → String → Error
unfolding as_i32
protocol code message = protocol_error (as_i32 code) message

unfoldable pub show_i32 : Signed → String
show_i32 n = if n.negative then "-" <> decimal n.magnitude else decimal n.magnitude

-- The `#[error]` texts.
unfoldable pub display : Error → String
unfolding show_i32
display (json e) = "JSON serialisation: " <> e
display (io e) = "I/O: " <> e
display (protocol_error code message) = "MCP protocol error (" <> show_i32 code <> "): " <> message
display transport_closed = "transport closed"
display (transport e) = "transport error: " <> e
display (invalid_response e) = "invalid response: " <> e
display timed_out = "call timed out"
display (other e) = e
