-- ===== src/Mcp/Handling.antt =====
-- The dispatch of crates/mcp-server/src/server.rs. A handler is one step on the world `W`.
pub mod Exposure
pub mod Surface
pub mod Dispatch
mod Tests
use oracle_automate.Prelude.{
  ℕ, ◌<◌, ◌%◌, ◌^◌, String, Bool, true, false, Option, none, some, List, [], ◌∷◌, map, length, take,
  keep_if, ltb, str_eq, string_Eq, pair_Eq, if◌then◌else◌,
}
use oracle_automate.Prelude.Map
use oracle_automate.Text.{◌<>◌}
use oracle_automate.Json.{Json, obj, Fields, end, field}
use oracle_automate.Mcp.Error.{ErrorCode, Error, McpResult, ok, err, protocol, as_i32, display}
use oracle_automate.Mcp.Jsonrpc.{
  Request, Notification, Response, Message, request, notification, response, ErrorObject, success,
  failure, new_error,
}
use oracle_automate.Mcp.Protocol.{
  protocol_version, Implementation, Tool, CallToolParams, ToolContent, text, CallToolResult,
  Resource, ReadResourceResult, Prompt, GetPromptParams, GetPromptResult, LogLevel, debug, info,
  notice, warning, error, critical, alert, emergency, rank, CompletionRef, CompletionArgumentRef,
  CompleteParams, CompletionData, no_completion,
}
use oracle_automate.Mcp.Registry.{
  ExposurePolicy, read_only_only, ToolDescriptor, ResourceDescriptor, PromptDescriptor,
  is_allowed_by,
}
use oracle_automate.Mcp.Methods.{
  Reply, Outside, Method, initialize, ping, tools_list, tools_call, resources_list, resources_read,
  prompts_list, prompts_get, logging_set_level, completion_complete, unsupported, method_of,
  or_empty, parse_params, select_protocol_version, error_object, tool_answer, cap_completion,
  candidates, answered,
}
use oracle_automate.Mcp.Protocol.{InitializeResult}
use oracle_automate.Mcp.Server.{ServerContext, capabilities, Outcome}

module _ {W : Type 0} where
  unfoldable pub do_initialize : Outside → McpResult String → ServerContext W → W → Outcome W
  do_initialize outside (err e) c w = (err e, c, w)
  do_initialize outside (ok version) c w = (
    ok (
        Reply.initialized (record {
          protocol_version = select_protocol_version version;
          capabilities = capabilities outside.logging_disabled c;
          server_info = c.server_info;
          instructions = c.instructions;
        })),
    c,
    w,
  )

  unfoldable pub run_tool :
      CallToolParams → Option (ToolDescriptor W) → ServerContext W → W → Outcome W
  run_tool params none c w =
      (err (protocol ErrorCode.unknown_tool ("unknown tool '" <> params.name <> "'")), c, w)
  run_tool params (some d) c w =
      let (r, w') = d.handler (or_empty params.arguments) w in
      (ok (Reply.tool_result (tool_answer r)), c, w')

  unfoldable pub call_tool : McpResult CallToolParams → ServerContext W → W → Outcome W
  unfolding run_tool
  call_tool (err e) c w = (err e, c, w)
  call_tool (ok params) c w = run_tool params (Map.get params.name c.tools) c w

  unfoldable pub run_resource :
      String → Option (ResourceDescriptor W) → ServerContext W → W → Outcome W
  run_resource uri none c w =
      (err (protocol ErrorCode.invalid_params ("unknown resource '" <> uri <> "'")), c, w)
  run_resource uri (some d) c w =
      let (r, w') = d.handler uri w in (answered Reply.resource_result r, c, w')

  unfoldable pub read_resource : McpResult String → ServerContext W → W → Outcome W
  unfolding run_resource
  read_resource (err e) c w = (err e, c, w)
  read_resource (ok uri) c w = run_resource uri (Map.get uri c.resources) c w

  unfoldable pub run_prompt :
      GetPromptParams → Option (PromptDescriptor W) → ServerContext W → W → Outcome W
  run_prompt params none c w =
      (err (protocol ErrorCode.invalid_params ("unknown prompt '" <> params.name <> "'")), c, w)
  run_prompt params (some d) c w =
      let (r, w') = d.handler params.arguments w in (answered Reply.prompt_result r, c, w')

  unfoldable pub get_prompt : McpResult GetPromptParams → ServerContext W → W → Outcome W
  unfolding run_prompt
  get_prompt (err e) c w = (err e, c, w)
  get_prompt (ok params) c w = run_prompt params (Map.get params.name c.prompts) c w

  unfoldable pub set_level : McpResult LogLevel → ServerContext W → W → Outcome W
  set_level (err e) c w = (err e, c, w)
  set_level (ok level) c w = (ok Reply.empty, record c { log_level = rank level }, w)

  unfoldable pub complete_ref :
      CompletionRef → CompletionArgumentRef → ServerContext W → CompletionData
  unfolding cap_completion
  complete_ref (CompletionRef.resource uri) argument c = no_completion
  complete_ref (CompletionRef.prompt name) argument c =
      cap_completion (candidates (Map.get (name, argument.name) c.completers) argument.value)

  unfoldable pub complete : McpResult CompleteParams → ServerContext W → W → Outcome W
  unfolding complete_ref
  complete (err e) c w = (err e, c, w)
  complete (ok params) c w =
      (ok (Reply.completion (complete_ref params.reference params.argument c)), c, w)

unfoldable pub respond : Outside → Request → McpResult Reply → Response
respond outside req (ok result) = success req.id (outside.to_value result)
respond outside req (err e) = failure req.id (error_object e)

module _ {W : Type 0} (outside : Outside) where
  unfoldable pub handle : Method → Request → ServerContext W → W → Outcome W
  unfolding parse_params
  handle initialize req c w =
      do_initialize outside (parse_params outside.read_version req.params) c w
  handle ping req c w = (ok Reply.empty, c, w)
  handle tools_list req c w = (ok (Reply.tool_list (map (λ p. p.1.tool) c.tools)), c, w)
  handle tools_call req c w = call_tool (parse_params outside.read_call req.params) c w
  handle resources_list req c w =
      (ok (Reply.resource_list (map (λ p. p.1.resource) c.resources)), c, w)
  handle resources_read req c w = read_resource (parse_params outside.read_uri req.params) c w
  handle prompts_list req c w = (ok (Reply.prompt_list (map (λ p. p.1.prompt) c.prompts)), c, w)
  handle prompts_get req c w = get_prompt (parse_params outside.read_prompt req.params) c w
  handle logging_set_level req c w = set_level (parse_params outside.read_level req.params) c w
  handle completion_complete req c w = complete (parse_params outside.read_complete req.params) c w
  handle unsupported req c w = (
    err (protocol ErrorCode.method_not_found ("method '" <> req.method <> "' not supported")),
    c,
    w,
  )

  unfoldable pub handle_method : Request → ServerContext W → W → Outcome W
  unfolding handle method_of
  handle_method req c w = handle (method_of req.method) req c w

  unfoldable pub dispatch : Request → ServerContext W → W → Response × ServerContext W × W
  unfolding respond
  dispatch req c w = let (r, c', w') = handle_method req c w in (respond outside req r, c', w')

  unfoldable pub dispatch_message :
      Message → ServerContext W → W → Option Message × ServerContext W × W
  dispatch_message (request req) c w =
      let (r, c', w') = dispatch req c w in (some (response r), c', w')
  dispatch_message (notification n) c w = (none, c, w)
  dispatch_message (response r) c w = (none, c, w)

  -- The loop of `run_single_actor`, over the messages received and without transport errors.
  unfoldable pub run_single_actor :
      List Message → ServerContext W → W → List (Option Message) × ServerContext W × W
  unfolding dispatch_message
  run_single_actor [] c w = ([], c, w)
  run_single_actor (m ∷ ms) c w =
      let (out, c', w') = dispatch_message m c w in
      let (outs, c'', w'') = run_single_actor ms c' w' in (out ∷ outs, c'', w'')
