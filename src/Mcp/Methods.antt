-- ===== src/Mcp/Methods.antt =====
-- The methods of crates/mcp-server/src/server.rs with their bodies, and the parts of the dispatch that
-- read no context. What serde derives and the environment variable are in `Outside`.
use oracle_automate.Prelude.{
  ◌%◌, ◌^◌, String, Bool, true, Option, none, some, List, [], ◌∷◌, length, take, ltb, str_eq,
  string_Eq, pair_Eq, if◌then◌else◌,
}
use oracle_automate.Text.{◌<>◌}
use oracle_automate.Json.{Json, obj, end}
use oracle_automate.Mcp.Error.{ErrorCode, Error, McpResult, ok, err, protocol, as_i32, display}
use oracle_automate.Mcp.Jsonrpc.{ErrorObject, new_error}
use oracle_automate.Mcp.Protocol.{
  InitializeResult, protocol_version, Tool, CallToolParams, text, CallToolResult, Resource,
  ReadResourceResult, Prompt, GetPromptParams, GetPromptResult, LogLevel, CompleteParams,
  CompletionData,
}

abbrev pub ArgumentCompleter : Type 0
ArgumentCompleter = String → String → List String

-- The results of `handle_method` before `to_value`; `empty` is `{}`.
pub data Reply : Type 0 where
  initialized : InitializeResult → Reply
  empty : Reply
  tool_list : List Tool → Reply
  tool_result : CallToolResult → Reply
  resource_list : List Resource → Reply
  resource_result : ReadResourceResult → Reply
  prompt_list : List Prompt → Reply
  prompt_result : GetPromptResult → Reply
  completion : CompletionData → Reply

pub data Decoded (A : Type 0) : Type 0 where
  decoded : A → Decoded A
  malformed : String → Decoded A

-- The derived `Deserialize` and `Serialize` of the bodies (of the parameters of `initialize` only the
-- version is read), and whether ORACLE_AUTOMATE_DISABLE_LOGGING_CAP is set.
pub record Outside : Type 0 where
  pub read_version : Json → Decoded String
  pub read_call : Json → Decoded CallToolParams
  pub read_uri : Json → Decoded String
  pub read_prompt : Json → Decoded GetPromptParams
  pub read_level : Json → Decoded LogLevel
  pub read_complete : Json → Decoded CompleteParams
  pub to_value : Reply → Json
  pub logging_disabled : Bool

pub data Method : Type 0 where
  initialize ping tools_list tools_call resources_list resources_read prompts_list prompts_get :
      Method
  logging_set_level completion_complete unsupported : Method

unfoldable pub method_of : String → Method
method_of m =
    if str_eq m "initialize"
    then initialize
    else if str_eq m "ping"
    then ping
    else if str_eq m "tools/list"
    then tools_list
    else if str_eq m "tools/call"
    then tools_call
    else if str_eq m "resources/list"
    then resources_list
    else if str_eq m "resources/read"
    then resources_read
    else if str_eq m "prompts/list"
    then prompts_list
    else if str_eq m "prompts/get"
    then prompts_get
    else if str_eq m "logging/setLevel"
    then logging_set_level
    else if str_eq m "completion/complete"
    then completion_complete
    else unsupported

abbrev pub or_empty : Option Json → Json
or_empty none = obj end
or_empty (some v) = v

abbrev pub decoded_or : {A : Type 0} → Decoded A → McpResult A
decoded_or (decoded a) = ok a
decoded_or (malformed e) = err (protocol ErrorCode.invalid_params ("invalid params: " <> e))

-- `parse_params`
unfoldable pub parse_params : {A : Type 0} → (Json → Decoded A) → Option Json → McpResult A
parse_params read params = decoded_or (read (or_empty params))

unfoldable pub select_protocol_version : String → String
select_protocol_version client = if str_eq client protocol_version then client else protocol_version

unfoldable pub error_object : Error → ErrorObject
unfolding as_i32
error_object (Error.protocol_error code message) = new_error code message
error_object (Error.json e) = new_error (as_i32 ErrorCode.parse_error) e
error_object (Error.io e) = new_error (as_i32 ErrorCode.internal_error) e
error_object e = new_error (as_i32 ErrorCode.internal_error) (display e)

-- `unwrap_or_else(|e| CallToolResult { .. })`
unfoldable pub tool_answer : McpResult CallToolResult → CallToolResult
tool_answer (ok r) = r
tool_answer (err e) = record { content = text (display e) ∷ []; is_error = true }

-- From the candidates of the completer on; `len() as u32`.
unfoldable pub cap_completion : List String → CompletionData
cap_completion values =
    let total = length values % 2 ^ 32 in
    let truncated = take 100 values in
    record {
      values = truncated;
      total = some total;
      has_more = some (ltb (length truncated % 2 ^ 32) total);
    }

abbrev pub candidates : Option ArgumentCompleter → String → List String
candidates none typed = []
candidates (some f) typed = f typed typed

abbrev pub answered : {A : Type 0} → (A → Reply) → McpResult A → McpResult Reply
answered f (ok a) = ok (f a)
answered f (err e) = err e
