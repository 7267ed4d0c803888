-- ===== src/Graph/Store.antt =====
-- crates/oracle-automate-graph/src/store.rs: the graph in memory with its two indices of edges.
pub mod Indices
mod Tests
use oracle_automate.Prelude.{ℕ, String, Option, none, some, List, [], ◌∷◌, ◌++◌, string_Eq, length}
use oracle_automate.Prelude.Map.{Map, get, insert}
use oracle_automate.Graph.Entity.{Entity, EdgeKind, Edge}

-- A neighbour, the kind of the edge and its weight.
abbrev pub Neighbour : Type 0
Neighbour = String × EdgeKind × ℕ

pub record InMemoryGraph : Type 0 where
  pub nodes : Map String Entity
  pub out_edges : Map String (List Neighbour)
  pub in_edges : Map String (List Neighbour)
  pub edges : List Edge

abbrev pub new_graph : InMemoryGraph
new_graph = record { nodes = []; out_edges = []; in_edges = []; edges = [] }

abbrev pub or_none : Option (List Neighbour) → List Neighbour
or_none none = []
or_none (some ns) = ns

-- `entry(id).or_default().push(n)`
unfoldable pub push_entry :
    String → Neighbour → Map String (List Neighbour) → Map String (List Neighbour)
unfolding get insert
push_entry id n index = insert id (or_none (get id index) ++ n ∷ []) index

unfoldable pub add_entity : Entity → InMemoryGraph → InMemoryGraph
unfolding insert
add_entity e g = record g { nodes = insert e.id e g.nodes }

unfoldable pub add_edge : Edge → InMemoryGraph → InMemoryGraph
unfolding push_entry
add_edge e g = record g {
  out_edges = push_entry e.from (e.to, e.kind, e.weight) g.out_edges;
  in_edges = push_entry e.to (e.from, e.kind, e.weight) g.in_edges;
  edges = g.edges ++ e ∷ [];
}

unfoldable pub find_node : String → InMemoryGraph → Option Entity
unfolding get
find_node id g = get id g.nodes

unfoldable pub outbound : String → InMemoryGraph → List Neighbour
unfolding get
outbound id g = or_none (get id g.out_edges)

unfoldable pub inbound : String → InMemoryGraph → List Neighbour
unfolding get
inbound id g = or_none (get id g.in_edges)

-- `stats`, less its counts by kind.
unfoldable pub node_and_edge_count : InMemoryGraph → ℕ × ℕ
node_and_edge_count g = (length g.nodes, length g.edges)
