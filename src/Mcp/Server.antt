-- ===== src/Mcp/Server.antt =====
-- The builder and the context of crates/mcp-server/src/server.rs.
use oracle_automate.Prelude.{
  ℕ, String, Bool, false, Option, none, some, List, [], ◌∷◌, keep_if, nat_eq, string_Eq, pair_Eq,
  if◌then◌else◌,
}
use oracle_automate.Prelude.Map
use oracle_automate.Json.{Json, obj, Fields, end, field}
use oracle_automate.Mcp.Error.{McpResult}
use oracle_automate.Mcp.Protocol.{
  ToolInputSchema, CallToolResult, ServerCapabilities, Implementation, LogLevel, debug, info,
  notice, warning, error, critical, alert, emergency, rank,
}
use oracle_automate.Mcp.Registry.{
  new_descriptor, ExposurePolicy, read_only_only, ToolDescriptor, ResourceDescriptor,
  PromptDescriptor, is_allowed_by,
}
use oracle_automate.Mcp.Methods.{ArgumentCompleter, Reply}

pub record ServerBuilder (W : Type 0) : Type 0 where
  pub server_info : Implementation
  pub instructions : Option String
  pub tools : Map.Map String (ToolDescriptor W)
  pub resources : Map.Map String (ResourceDescriptor W)
  pub prompts : Map.Map String (PromptDescriptor W)
  pub exposure : ExposurePolicy
  pub completers : Map.Map (String × String) ArgumentCompleter
  pub initial_log_level : LogLevel

-- The log level is the rank that the atomic cell holds.
pub record ServerContext (W : Type 0) : Type 0 where
  pub server_info : Implementation
  pub instructions : Option String
  pub tools : Map.Map String (ToolDescriptor W)
  pub resources : Map.Map String (ResourceDescriptor W)
  pub prompts : Map.Map String (PromptDescriptor W)
  pub exposure : ExposurePolicy
  pub completers : Map.Map (String × String) ArgumentCompleter
  pub log_level : ℕ

unfoldable pub level_of : ℕ → LogLevel
level_of n =
    if nat_eq n 0
    then debug
    else if nat_eq n 1
    then info
    else if nat_eq n 2
    then notice
    else if nat_eq n 3
    then warning
    else if nat_eq n 4
    then error
    else if nat_eq n 5
    then critical
    else if nat_eq n 6
    then alert
    else emergency

abbrev pub nonempty {ℓ} : {A : Type ℓ} → List A → {B : Type 0} → B → Option B
nonempty [] b = none
nonempty (x ∷ xs) b = some b

abbrev pub completions_entry : Option Json → Fields
completions_entry none = end
completions_entry (some c) = field "completions" c end

module _ {W : Type 0} where
  unfoldable pub new_builder : String → String → ServerBuilder W
  new_builder name version = record {
    server_info = record { name = name; version = version };
    instructions = none;
    tools = [];
    resources = [];
    prompts = [];
    exposure = read_only_only;
    completers = [];
    initial_log_level = info;
  }

  unfoldable pub with_tool : ToolDescriptor W → ServerBuilder W → ServerBuilder W
  with_tool d b = record b { tools = Map.insert d.tool.name d b.tools }

  -- `tool_fn`
  unfoldable pub with_tool_fn :
      String
      → String
      → ToolInputSchema
      → (Json → W → McpResult CallToolResult × W)
      → ServerBuilder W
      → ServerBuilder W
  unfolding with_tool new_descriptor
  with_tool_fn name description input_schema handler b =
      with_tool (new_descriptor name (some description) input_schema handler) b

  unfoldable pub with_resource : ResourceDescriptor W → ServerBuilder W → ServerBuilder W
  with_resource d b = record b { resources = Map.insert d.resource.uri d b.resources }

  unfoldable pub with_prompt : PromptDescriptor W → ServerBuilder W → ServerBuilder W
  with_prompt d b = record b { prompts = Map.insert d.prompt.name d b.prompts }

  unfoldable pub with_completer :
      String → String → ArgumentCompleter → ServerBuilder W → ServerBuilder W
  with_completer prompt_name argument f b = record b {
    completers = Map.insert (prompt_name, argument) f b.completers;
  }

  unfoldable pub with_log_level : LogLevel → ServerBuilder W → ServerBuilder W
  with_log_level level b = record b { initial_log_level = level }

  unfoldable pub with_exposure : ExposurePolicy → ServerBuilder W → ServerBuilder W
  with_exposure policy b = record b { exposure = policy }

  unfoldable pub with_instructions : String → ServerBuilder W → ServerBuilder W
  with_instructions t b = record b { instructions = some t }

  unfoldable pub build : ServerBuilder W → ServerContext W
  build b = record {
    server_info = b.server_info;
    instructions = b.instructions;
    tools = keep_if (λ p. is_allowed_by (p.1) b.exposure) b.tools;
    resources = b.resources;
    prompts = b.prompts;
    exposure = b.exposure;
    completers = b.completers;
    log_level = rank b.initial_log_level;
  }

  unfoldable pub current_log_level : ServerContext W → LogLevel
  unfolding level_of
  current_log_level c = level_of c.log_level

  unfoldable pub capabilities : Bool → ServerContext W → ServerCapabilities
  capabilities logging_disabled c = record {
    tools = nonempty c.tools false;
    resources = nonempty c.resources (false, false);
    prompts = nonempty c.prompts false;
    logging = if logging_disabled then none else some (obj end);
    extra = completions_entry (nonempty c.completers (obj end));
  }

-- What a request does: its result, the server and the world after it.
abbrev pub Outcome : Type 0 → Type 0
Outcome W = McpResult Reply × ServerContext W × W
