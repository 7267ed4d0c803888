-- ===== src/Graph/Store/Indices.antt =====
-- crates/oracle-automate-graph/src/store.rs: the indices against the list of edges.
use mathlib.Core.List.{append-nil, append_assoc}
use oracle_automate.Prelude.{
  ◌≡◌, refl, sym, ap, ◌∙◌, Bool, Bool-cases, true, false, inl, inr, List, [], ◌∷◌, ◌++◌, String,
  string_Eq, str_eq, eq_iff, if◌then◌else◌,
}
use oracle_automate.Prelude.Map.{Map, get, get-insert}
use oracle_automate.Graph.Entity.{Entity, Edge}
use oracle_automate.Graph.Store.{
  Neighbour, InMemoryGraph, new_graph, or_none, push_entry, add_entity, add_edge, outbound, inbound,
}

-- The edges from a node, in order.
unfoldable pub leaving : String → List Edge → List Neighbour
leaving id [] = []
leaving id (e ∷ es) =
    let rest = leaving id es in if str_eq e.from id then (e.to, e.kind, e.weight) ∷ rest else rest

-- The edges to a node, in order.
unfoldable pub arriving : String → List Edge → List Neighbour
arriving id [] = []
arriving id (e ∷ es) =
    let rest = arriving id es in if str_eq e.to id then (e.from, e.kind, e.weight) ∷ rest else rest

pub data Change : Type 0 where
  entity : Entity → Change
  edge : Edge → Change

unfoldable pub apply_all : List Change → InMemoryGraph → InMemoryGraph
apply_all [] g = g
apply_all (entity e ∷ cs) g = apply_all cs (add_entity e g)
apply_all (edge e ∷ cs) g = apply_all cs (add_edge e g)

-- The edges that were added, in order.
unfoldable pub edges_of : List Change → List Edge
edges_of [] = []
edges_of (entity e ∷ cs) = edges_of cs
edges_of (edge e ∷ cs) = e ∷ edges_of cs

abbrev if_some {ℓ} : {A : Type ℓ} → Bool → A → List A
if_some true a = a ∷ []
if_some false a = []

or_none-push_entry :
    (id k : String) (n : Neighbour) (index : Map String (List Neighbour))
    → or_none (get k (push_entry id n index)) ≡ or_none (get k index) ++ if_some (str_eq id k) n
unfolding push_entry
or_none-push_entry id k n index = elim (Bool-cases (str_eq id k)) [
  | inl b ↦
      rw (get-insert id k (or_none (get id index) ++ n ∷ []) index, b)
        (ap (λ j. or_none (get j index) ++ n ∷ []) ((eq_iff id k).0 b))
  | inr b ↦ rw (get-insert id k (or_none (get id index) ++ n ∷ []) index, b) (sym (append-nil _))
]

leaving-append :
    (id : String) (es : List Edge) (e : Edge)
    → leaving id (es ++ e ∷ [])
      ≡ leaving id es ++ if_some (str_eq e.from id) (e.to, e.kind, e.weight)
unfolding leaving
leaving-append id [] e = elim (Bool-cases (str_eq e.from id)) [
  | inl b ↦ rw b refl
  | inr b ↦ rw b refl
]
leaving-append id (d ∷ ds) e = elim (Bool-cases (str_eq d.from id)) [
  | inl b ↦ rw b (ap (◌∷◌ (d.to, d.kind, d.weight)) (leaving-append id ds e))
  | inr b ↦ rw b (leaving-append id ds e)
]

arriving-append :
    (id : String) (es : List Edge) (e : Edge)
    → arriving id (es ++ e ∷ [])
      ≡ arriving id es ++ if_some (str_eq e.to id) (e.from, e.kind, e.weight)
unfolding arriving
arriving-append id [] e = elim (Bool-cases (str_eq e.to id)) [
  | inl b ↦ rw b refl
  | inr b ↦ rw b refl
]
arriving-append id (d ∷ ds) e = elim (Bool-cases (str_eq d.to id)) [
  | inl b ↦ rw b (ap (◌∷◌ (d.from, d.kind, d.weight)) (arriving-append id ds e))
  | inr b ↦ rw b (arriving-append id ds e)
]

-- The indices of a node hold the edges of the list.
IsIndexed : String → InMemoryGraph → Type 0
IsIndexed id g = (outbound id g ≡ leaving id g.edges) × (inbound id g ≡ arriving id g.edges)

add_edge-IsIndexed :
    (id : String) (e : Edge) (g : InMemoryGraph) → IsIndexed id g → IsIndexed id (add_edge e g)
unfolding IsIndexed add_edge outbound inbound
add_edge-IsIndexed id e g (out, in_) = (
  or_none-push_entry e.from id (e.to, e.kind, e.weight) g.out_edges
      ∙ ap (λ l. l ++ if_some (str_eq e.from id) (e.to, e.kind, e.weight)) out
      ∙ sym (leaving-append id g.edges e),
  or_none-push_entry e.to id (e.from, e.kind, e.weight) g.in_edges
      ∙ ap (λ l. l ++ if_some (str_eq e.to id) (e.from, e.kind, e.weight)) in_
      ∙ sym (arriving-append id g.edges e),
)

edges-add_edge :
    (e : Edge) (g : InMemoryGraph) (cs : List Change)
    → (add_edge e g).edges ++ edges_of cs ≡ g.edges ++ e ∷ edges_of cs
unfolding add_edge
edges-add_edge e g cs = append_assoc g.edges (e ∷ []) (edges_of cs)

new_graph-IsIndexed : (id : String) → IsIndexed id new_graph
unfolding IsIndexed outbound inbound leaving arriving get
new_graph-IsIndexed id = (refl, refl)

apply_all-IsIndexed :
    (id : String) (cs : List Change) (g : InMemoryGraph)
    → IsIndexed id g
    → IsIndexed id (apply_all cs g) × ((apply_all cs g).edges ≡ g.edges ++ edges_of cs)
unfolding IsIndexed apply_all add_entity outbound inbound edges_of
apply_all-IsIndexed id [] g w = (w, sym (append-nil g.edges))
apply_all-IsIndexed id (entity e ∷ cs) g w = apply_all-IsIndexed id cs (add_entity e g) w
apply_all-IsIndexed id (edge e ∷ cs) g w =
    let r = apply_all-IsIndexed id cs (add_edge e g) (add_edge-IsIndexed id e g w) in
    (r.0, r.1 ∙ edges-add_edge e g cs)

-- Whatever was added to a graph, the outgoing and the incoming neighbours of a node are those of the
-- edges that were added, in the order of their addition.
pub apply_all-neighbours :
    (id : String) (cs : List Change)
    → (outbound id (apply_all cs new_graph) ≡ leaving id (edges_of cs))
      × (inbound id (apply_all cs new_graph) ≡ arriving id (edges_of cs))
unfolding IsIndexed
apply_all-neighbours id cs =
    let r = apply_all-IsIndexed id cs new_graph (new_graph-IsIndexed id) in
    (r.0.0 ∙ ap (leaving id) r.1, r.0.1 ∙ ap (arriving id) r.1)
