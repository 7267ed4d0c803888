-- ===== src/Tools/RestCall.antt =====
-- apps/oracle-automate-server/src/tools.rs, the handler of `tool_rfc_call` (the tool
-- oracle.rest.call), over the world of the ERP and that of the audit sink. The reading of the
-- request, and the value and the printing of an answer, are serde's and parameters.
pub mod Audited
use oracle_automate.Prelude.{ℕ, String, Bool, true, false, List, if◌then◌else◌}
use oracle_automate.Text.{◌<>◌, Signed}
use oracle_automate.Json.{Json, bool, str, obj, end, field}
use oracle_automate.Erp.Error.{
  ErpErrorCode, as_i32, ErpError, error_code, display, ErpResult, ok, err,
}
use oracle_automate.Erp.Message.{ErpMessage}
use oracle_automate.Erp.Transaction.{ErpCallRequest, Client, WriteOutcome, execute_write_bapi}
use oracle_automate.Mcp.Methods.{Decoded, decoded, malformed}
use oracle_automate.Mcp.Protocol.{CallToolResult}
use oracle_automate.Observability.Audit.{AuditOutcome}
use oracle_automate.Tools.Answer.{
  error_result, bool_at, Pretty, render_json, Stamp, Auditing, record_write_audit, shown,
}

-- The derived `Debug` of a code.
unfoldable pub debug_code : ErpErrorCode → String
debug_code ErpErrorCode.timeout = "Timeout"
debug_code ErpErrorCode.destination_down = "DestinationDown"
debug_code ErpErrorCode.pool_exhausted = "PoolExhausted"
debug_code ErpErrorCode.circuit_open = "CircuitOpen"
debug_code ErpErrorCode.upstream_rate_limit = "UpstreamRateLimit"
debug_code ErpErrorCode.auth_failed = "AuthFailed"
debug_code ErpErrorCode.not_found = "NotFound"
debug_code ErpErrorCode.table_buffer_overflow = "TableBufferOverflow"
debug_code ErpErrorCode.invalid_parameter = "InvalidParameter"
debug_code ErpErrorCode.permission_denied = "PermissionDenied"
debug_code ErpErrorCode.schema_violation = "SchemaViolation"
debug_code ErpErrorCode.internal = "Internal"
debug_code ErpErrorCode.partial_bulk = "PartialBulk"
debug_code ErpErrorCode.stale_metadata = "StaleMetadata"

abbrev pub no_code : Signed
no_code = record { negative = false; magnitude = 0 }

abbrev pub signed_code : ErpErrorCode → Signed
unfolding as_i32
signed_code c = record { negative = true; magnitude = as_i32 c }

-- `audit_outcome` of an outcome.
abbrev pub outcome_of : WriteOutcome → AuditOutcome
outcome_of out =
    if out.committed
    then AuditOutcome.ok (out.function <> " committed")
    else AuditOutcome.failed no_code
        (out.function <> " not committed (rolled_back=" <> shown out.rolled_back <> ")")

-- `audit_outcome` of an error.
abbrev pub refusal_of : ErpError → AuditOutcome
unfolding error_code display
refusal_of (ErpError.permission_denied r) = AuditOutcome.denied r
refusal_of e = AuditOutcome.failed (signed_code (error_code e)) (display e)

unfoldable pub audit_outcome : ErpResult WriteOutcome → AuditOutcome
unfolding refusal_of
audit_outcome (ok out) = outcome_of out
audit_outcome (err e) = refusal_of e

pub record Serde : Type 0 where
  pub read_request : Json → Decoded ErpCallRequest
  pub messages_value : List ErpMessage → Json
  pub pretty : Pretty

-- The `json!` of an outcome; its keys are walked in their order.
abbrev pub value_of : Serde → WriteOutcome → Json
value_of serde out = obj (
    field "committed" (bool out.committed) (
      field "function" (str out.function) (
        field "messages" (serde.messages_value out.messages)
          (field "result" out.result (field "rolled_back" (bool out.rolled_back) end)))))

abbrev pub call_error : ErpError → CallToolResult
unfolding debug_code error_code display
call_error e =
    error_result ("oracle.rest.call [" <> debug_code (error_code e) <> "]: " <> display e)

abbrev pub write_answer : Serde → ErpResult WriteOutcome → CallToolResult
unfolding render_json
write_answer serde (ok out) = render_json serde.pretty "oracle.rest.call" (value_of serde out)
write_answer serde (err e) = call_error e

abbrev pub call_answer : Serde → ErpResult Json → CallToolResult
unfolding render_json
call_answer serde (ok v) = render_json serde.pretty "oracle.rest.call" v
call_answer serde (err e) = call_error e

module _ {W L : Type 0} (client : Client W) (auditing : Auditing L) (serde : Serde)
    (read_only : Bool) where
  -- The arm for `commit`.
  unfoldable pub write_call : Stamp → Json → ErpCallRequest → W × L → CallToolResult × W × L
  unfolding execute_write_bapi audit_outcome record_write_audit
  write_call stamp arguments request (w, l) =
      let (r, w') = execute_write_bapi client request read_only w in
      let l' = record_write_audit auditing stamp "oracle.rest.call" arguments (audit_outcome r) l in
      (write_answer serde r, w', l')

  unfoldable pub plain_call : ErpCallRequest → W × L → CallToolResult × W × L
  plain_call request (w, l) =
      let (r, w') = client request read_only w in (call_answer serde r, w', l)

  unfoldable pub call_with : Stamp → Json → Decoded ErpCallRequest → W × L → CallToolResult × W × L
  unfolding write_call plain_call bool_at
  call_with stamp arguments (malformed e) s =
      (error_result ("oracle.rest.call: invalid arguments: " <> e), s.0, s.1)
  call_with stamp arguments (decoded request) s =
      if bool_at "commit" arguments
      then write_call stamp arguments request s
      else plain_call request s

  unfoldable pub rest_call : Stamp → Json → W × L → CallToolResult × W × L
  unfolding call_with
  rest_call stamp arguments s = call_with stamp arguments (serde.read_request arguments) s
