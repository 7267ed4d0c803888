-- ===== src/Graph.antt =====
-- crates/oracle-automate-graph: the knowledge graph.
pub mod Entity
pub mod Store
