-- ===== src/Mcp/Handling/Tests.antt =====
-- A server with a read tool and a write tool over a counter, and the theorems on it. In these tests
-- the parameters of a request are one text, and every reply is written as null.
use oracle_automate.Prelude.{
  ℕ, ◌+◌, ◌<◌, ◌≤◌, String, ◌≡◌, refl, ◌↔◌, true, false, none, some, List, [], ◌∷◌, take, length,
  arith, string_Eq,
}
use oracle_automate.Prelude.Map
use oracle_automate.Text.{◌<>◌}
use oracle_automate.Json.{Json, null, str, end}
use oracle_automate.Mcp.Error.{ErrorCode, McpResult, ok, err, protocol}
use oracle_automate.Mcp.Jsonrpc.{number, string, Request, Message, request, notification}
use oracle_automate.Mcp.Protocol.{
  CallToolParams, GetPromptParams, CompleteParams, CallToolResult, LogLevel, warning, rank, Tool,
}
use oracle_automate.Mcp.Registry.{
  is_allowed_by, read_only_only, new_descriptor, with_writes, ToolDescriptor,
}
use oracle_automate.Mcp.Methods.{Outside, Decoded, decoded, malformed, parse_params, cap_completion}
use oracle_automate.Mcp.Server.{ServerBuilder, new_builder, with_tool, build}
use oracle_automate.Mcp.Handling.{handle_method, run_single_actor}
use oracle_automate.Mcp.Handling.Surface.{Built, fresh, tool, Unlisted, tools_call-listed}
use oracle_automate.Mcp.Handling.Exposure.{tools_call-read_only}
use oracle_automate.Mcp.Handling.Dispatch.{
  AreAnswered, run_single_actor-AreAnswered, cap_completion_lem,
}

abbrev read_name : Json → Decoded CallToolParams
read_name (str s) = decoded (record { name = s; arguments = none })
read_name _ = malformed "no text"

abbrev read_text : Json → Decoded String
read_text (str s) = decoded s
read_text _ = malformed "no text"

abbrev outside : Outside
outside = record {
  read_version = read_text;
  read_call = read_name;
  read_uri = read_text;
  read_prompt = λ j. malformed "not read";
  read_level = λ j. decoded warning;
  read_complete = λ j. malformed "not read";
  to_value = λ r. null;
  logging_disabled = false;
}

abbrev done : McpResult CallToolResult
done = ok (record { content = []; is_error = false })

abbrev schema : oracle_automate.Mcp.Protocol.ToolInputSchema
schema = record { schema_type = "object"; properties = none; required = []; extra = end }

abbrev look : ToolDescriptor ℕ
look = record {
  tool = record { name = "look"; description = none; input_schema = schema };
  handler = λ args w. (done, w);
  exposure = oracle_automate.Mcp.Registry.read_only;
}

abbrev post : ToolDescriptor ℕ
post = record {
  tool = record { name = "post"; description = none; input_schema = schema };
  handler = λ args w. (done, w + 1);
  exposure = oracle_automate.Mcp.Registry.writes;
}

abbrev builder : ServerBuilder ℕ
builder = with_tool post (with_tool look (new_builder "erp" "1"))

builder-Built : Built builder
builder-Built = tool post _ (tool look _ (fresh "erp" "1"))

abbrev list_request : Request
list_request = record { jsonrpc = "2.0"; id = number 1; method = "tools/list"; params = none }

abbrev post_request : Request
post_request = record {
  jsonrpc = "2.0";
  id = string "a";
  method = "tools/call";
  params = some (str "post");
}

abbrev level_request : Request
level_request = record {
  jsonrpc = "2.0";
  id = number 3;
  method = "logging/setLevel";
  params = none;
}

tools_call-listed_example :
    (handle_method outside post_request (build builder) 0 ≡ (
      err (protocol ErrorCode.unknown_tool ("unknown tool '" <> "post" <> "'")),
      build builder,
      0,
    ))
    ↔ Unlisted "post" (look.tool ∷ [])
unfolding new_builder with_tool build handle_method parse_params Map.insert is_allowed_by
tools_call-listed_example =
    tools_call-listed outside builder builder-Built list_request post_request refl refl
      (record { name = "post"; arguments = none }) refl 0 (look.tool ∷ []) refl

tools_call-read_only_example :
    (let (r, c', w') = handle_method outside post_request (build builder) 0 in w') ≡ 0
unfolding new_builder with_tool Map.insert
tools_call-read_only_example =
    tools_call-read_only outside builder refl
      ((λ e args w. refl), ((λ e. absurd (ground (arith, e))), tt)) post_request refl 0

abbrev messages : List Message
messages =
    request list_request
    ∷ notification (record { jsonrpc = "2.0"; method = "notifications/initialized"; params = none })
    ∷ request post_request
    ∷ []

run_single_actor-AreAnswered_example :
    (let (outs, c', w') = run_single_actor outside messages (build builder) 0 in
      AreAnswered messages outs)
run_single_actor-AreAnswered_example =
    run_single_actor-AreAnswered outside messages (build builder) 0

abbrev one_candidate : List String
one_candidate = "a" ∷ []

cap_completion_lem_example :
    (length (cap_completion one_candidate).values ≤ 100)
    × ((cap_completion one_candidate).values ≡ take 100 one_candidate)
    × ((cap_completion one_candidate).total ≡ some (length one_candidate))
    × (((cap_completion one_candidate).has_more ≡ some true) ↔ (100 < length one_candidate))
cap_completion_lem_example = cap_completion_lem one_candidate (omega arith)
