-- ===== src/Kb/Schema.antt =====
-- crates/oracle-automate-kb/src/schema.rs: documents and chunks. A text that the code looks into is
-- the list of its code points. SHA-256 is `sha256`, an argument of what uses it.
use oracle_automate.Prelude.{ℕ, String, Option, none, List, []}
use oracle_automate.Prelude.Map.{Map}
use oracle_automate.Text.Codes.{Codes}

pub data Domain : Type 0 where
  oracle_help integration bpmn app_catalog : Domain

abbrev pub collection : Domain → String
collection oracle_help = "oracle_help"
collection integration = "integration"
collection bpmn = "bpmn"
collection app_catalog = "app_catalog"

pub record Document : Type 0 where
  pub id : String
  pub domain : Domain
  pub uri : String
  pub title : Codes
  pub body : Codes
  pub breadcrumbs : List String
  pub content_hash : String
  pub etag : Option String
  pub last_crawled : Option String
  pub metadata : Map String String

abbrev pub new_document : (Codes → String) → String → Domain → String → Codes → Codes → Document
new_document sha256 id domain uri title body = record {
  id = id;
  domain = domain;
  uri = uri;
  title = title;
  body = body;
  breadcrumbs = [];
  content_hash = sha256 body;
  etag = none;
  last_crawled = none;
  metadata = [];
}

-- An f32 is its 32 bits: the store only carries embeddings.
pub record Chunk : Type 0 where
  pub id : String
  pub document_id : String
  pub domain : Domain
  pub ordinal : ℕ
  pub text : Codes
  pub embedding : Option (List ℕ)
  pub breadcrumbs : List String
  pub title : String
  pub uri : String
