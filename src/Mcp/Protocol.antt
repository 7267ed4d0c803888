-- ===== src/Mcp/Protocol.antt =====
-- The bodies of crates/mcp-core/src/protocol.rs that the server reads and writes. A field that serde
-- flattens into the object around it is a list of entries.
use oracle_automate.Prelude.{ℕ, String, Bool, Option, none, List, []}
use oracle_automate.Json.{Json, Fields}

abbrev pub protocol_version : String
protocol_version = "2025-06-18"

pub record Implementation : Type 0 where
  pub name : String
  pub version : String

pub record ToolInputSchema : Type 0 where
  pub schema_type : String
  pub properties : Option Json
  pub required : List String
  pub extra : Fields

pub record Tool : Type 0 where
  pub name : String
  pub description : Option String
  pub input_schema : ToolInputSchema

pub record CallToolParams : Type 0 where
  pub name : String
  pub arguments : Option Json

pub record ResourceContents : Type 0 where
  pub uri : String
  pub mime_type : Option String
  pub text : Option String
  pub blob : Option String

pub data ToolContent : Type 0 where
  text : String → ToolContent
  image : String → String → ToolContent
  resource : ResourceContents → ToolContent

pub record CallToolResult : Type 0 where
  pub content : List ToolContent
  pub is_error : Bool

pub record Resource : Type 0 where
  pub uri : String
  pub name : String
  pub description : Option String
  pub mime_type : Option String

pub record ReadResourceResult : Type 0 where
  pub contents : List ResourceContents

pub record PromptArgument : Type 0 where
  pub name : String
  pub description : Option String
  pub required : Bool

pub record Prompt : Type 0 where
  pub name : String
  pub description : Option String
  pub arguments : List PromptArgument

pub record GetPromptParams : Type 0 where
  pub name : String
  pub arguments : Option Json

pub data Role : Type 0 where
  user assistant system : Role

pub record PromptMessage : Type 0 where
  pub role : Role
  pub content : ToolContent

pub record GetPromptResult : Type 0 where
  pub description : Option String
  pub messages : List PromptMessage

pub data LogLevel : Type 0 where
  debug info notice warning error critical alert emergency : LogLevel

unfoldable pub rank : LogLevel → ℕ
rank debug = 0
rank info = 1
rank notice = 2
rank warning = 3
rank error = 4
rank critical = 5
rank alert = 6
rank emergency = 7

pub data CompletionRef : Type 0 where
  prompt resource : String → CompletionRef

pub record CompletionArgumentRef : Type 0 where
  pub name : String
  pub value : String

pub record CompleteParams : Type 0 where
  pub reference : CompletionRef
  pub argument : CompletionArgumentRef

pub record CompletionData : Type 0 where
  pub values : List String
  pub total : Option ℕ
  pub has_more : Option Bool

abbrev pub no_completion : CompletionData
no_completion = record { values = []; total = none; has_more = none }

pub record ServerCapabilities : Type 0 where
  pub tools : Option Bool
  pub resources : Option (Bool × Bool)
  pub prompts : Option Bool
  pub logging : Option Json
  pub extra : Fields

pub record InitializeResult : Type 0 where
  pub protocol_version : String
  pub capabilities : ServerCapabilities
  pub server_info : Implementation
  pub instructions : Option String
