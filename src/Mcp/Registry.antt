-- ===== src/Mcp/Registry.antt =====
-- crates/mcp-server/src/registry.rs. A handler acts on a state `W`, the world that it can reach.
use oracle_automate.Prelude.{String, Bool, true, false, Option}
use oracle_automate.Json.{Json}
use oracle_automate.Mcp.Error.{McpResult}
use oracle_automate.Mcp.Protocol.{
  Tool, ToolInputSchema, CallToolResult, Resource, ReadResourceResult, Prompt, GetPromptResult,
}

pub data ToolExposure : Type 0 where
  read_only writes : ToolExposure

pub data ExposurePolicy : Type 0 where
  read_only_only all : ExposurePolicy

pub record ToolDescriptor (W : Type 0) : Type 0 where
  pub tool : Tool
  pub handler : Json → W → McpResult CallToolResult × W
  pub exposure : ToolExposure

pub record ResourceDescriptor (W : Type 0) : Type 0 where
  pub resource : Resource
  pub handler : String → W → McpResult ReadResourceResult × W

pub record PromptDescriptor (W : Type 0) : Type 0 where
  pub prompt : Prompt
  pub handler : Option Json → W → McpResult GetPromptResult × W

unfoldable pub allows : ExposurePolicy → ToolExposure → Bool
allows read_only_only read_only = true
allows read_only_only writes = false
allows all e = true

module _ {W : Type 0} where
  unfoldable pub new_descriptor :
      String
      → Option String
      → ToolInputSchema
      → (Json → W → McpResult CallToolResult × W)
      → ToolDescriptor W
  new_descriptor name description input_schema handler = record {
    tool = record { name = name; description = description; input_schema = input_schema };
    handler = handler;
    exposure = read_only;
  }

  unfoldable pub with_writes : ToolDescriptor W → ToolDescriptor W
  with_writes d = record d { exposure = writes }

  unfoldable pub is_allowed_by : ToolDescriptor W → ExposurePolicy → Bool
  unfolding allows
  is_allowed_by d policy = allows policy d.exposure
