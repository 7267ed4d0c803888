-- ===== src/Graph/Entity.antt =====
-- crates/oracle-automate-graph/src/entity.rs: entities and edges. A weight is the 32 bits of its f32:
-- the store only carries it.
use oracle_automate.Prelude.{ℕ, String, Option, List}

pub data EntityKind : Type 0 where
  integration data_object field rest_operation : EntityKind
  process_model app_catalog_entry help_page concept : EntityKind

pub record Entity : Type 0 where
  pub id : String
  pub kind : EntityKind
  pub label : String
  pub description : Option String
  pub uri : Option String
  pub tags : List String

pub data EdgeKind : Type 0 where
  calls implements includes reads_table writes_table : EdgeKind
  references contained_in depends_on describes related : EdgeKind

pub record Edge : Type 0 where
  pub from : String
  pub to : String
  pub kind : EdgeKind
  pub weight : ℕ
