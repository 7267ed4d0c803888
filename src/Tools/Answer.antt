-- ===== src/Tools/Answer.antt =====
-- apps/oracle-automate-server/src/tools.rs: the answers of the tools and the audit of their writes.
-- What the clock and the making of event ids give an entry is handed in as a stamp.
use oracle_automate.Prelude.{ℕ, String, Bool, true, false, Option, none, some, [], ◌∷◌}
use oracle_automate.Text.{◌<>◌}
use oracle_automate.Json.{Json, bool, str, get_key}
use oracle_automate.Mcp.Methods.{Decoded, decoded, malformed}
use oracle_automate.Mcp.Protocol.{text, CallToolResult}
use oracle_automate.Observability.Audit.{AuditOutcome, AuditEntry, record_entry}

-- `CallToolResult::text`
abbrev pub text_result : String → CallToolResult
text_result s = record { content = text s ∷ []; is_error = false }

-- `CallToolResult::error`
abbrev pub error_result : String → CallToolResult
error_result s = record { content = text s ∷ []; is_error = true }

-- `v.get(key).and_then(|x| x.as_bool()).unwrap_or(false)`
abbrev as_bool_or_false : Option Json → Bool
as_bool_or_false (some (bool b)) = b
as_bool_or_false _ = false

unfoldable pub bool_at : String → Json → Bool
unfolding get_key
bool_at key v = as_bool_or_false (get_key key v)

-- `v.get(key).and_then(|x| x.as_str()).unwrap_or(default)`
abbrev as_str_or : String → Option Json → String
as_str_or default (some (str s)) = s
as_str_or default _ = default

unfoldable pub str_at : String → String → Json → String
unfolding get_key
str_at key default v = as_str_or default (get_key key v)

-- A bool as `format!` prints it.
abbrev pub shown : Bool → String
shown true = "true"
shown false = "false"

-- `serde_json::to_string_pretty`
abbrev pub Pretty : Type 0
Pretty = Json → Decoded String

abbrev rendered : String → Decoded String → CallToolResult
rendered tool (decoded s) = text_result s
rendered tool (malformed e) = error_result (tool <> ": serialise: " <> e)

unfoldable pub render_json : Pretty → String → Json → CallToolResult
render_json pretty tool v = rendered tool (pretty v)

pub record Stamp : Type 0 where
  pub event_id : String
  pub at_ms : ℕ
  pub duration_ms : ℕ

-- The entry of `record_write_audit`.
unfoldable pub write_entry : Option String → Stamp → String → Json → AuditOutcome → AuditEntry
write_entry erp_system stamp tool arguments outcome = record {
  event_id = stamp.event_id;
  at_ms = stamp.at_ms;
  session_id = none;
  tenant = none;
  actor = none;
  tool = tool;
  erp_system = erp_system;
  arguments_redacted = arguments;
  outcome = outcome;
  duration_ms = stamp.duration_ms;
}

-- What the tools take of the `ServerContext` for an entry, `L` being the world of the sink.
pub record Auditing (L : Type 0) : Type 0 where
  pub to_lowercase : String → String
  pub sink : AuditEntry → L → L
  pub erp_system : Option String

unfoldable pub record_write_audit :
    {L : Type 0} → Auditing L → Stamp → String → Json → AuditOutcome → L → L
unfolding record_entry write_entry
record_write_audit a stamp tool arguments outcome =
    record_entry a.to_lowercase a.sink (write_entry a.erp_system stamp tool arguments outcome)
