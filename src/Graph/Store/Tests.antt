-- ===== src/Graph/Store/Tests.antt =====
-- The graph on a concrete history.
use oracle_automate.Prelude.{◌≡◌, none, List, [], ◌∷◌}
use oracle_automate.Graph.Entity.{calls, describes, concept}
use oracle_automate.Graph.Store.{new_graph, outbound, inbound}
use oracle_automate.Graph.Store.Indices.{
  Change, entity, edge, apply_all, edges_of, leaving, arriving, apply_all-neighbours,
}

abbrev history : List Change
history =
    edge (record { from = "a"; to = "b"; kind = calls; weight = 1 })
    ∷ entity (record {
      id = "a";
      kind = concept;
      label = "A";
      description = none;
      uri = none;
      tags = [];
    })
    ∷ edge (record { from = "c"; to = "b"; kind = describes; weight = 2 })
    ∷ edge (record { from = "a"; to = "c"; kind = calls; weight = 3 })
    ∷ []

apply_all-neighbours_example :
    (outbound "a" (apply_all history new_graph) ≡ ("b", calls, 1) ∷ ("c", calls, 3) ∷ [])
    × (inbound "a" (apply_all history new_graph) ≡ [])
unfolding leaving arriving edges_of
apply_all-neighbours_example = apply_all-neighbours "a" history
