-- ===== src/Kb/Tree.antt =====
-- crates/oracle-automate-kb/src/doc_tree.rs: `DocTreeNode` and `DocumentTree`, with their walks.
-- A node's fields other than its children stand in `Section`.
use oracle_automate.Prelude.{
  ℕ, ◌+◌, max, String, Option, none, some, List, [], ◌∷◌, ◌++◌, str_eq, if◌then◌else◌,
}
use oracle_automate.Text.{◌<>◌, decimal}
use oracle_automate.Text.Codes.{Codes}

pub record Section : Type 0 where
  pub path : String
  pub depth : ℕ
  pub title : Codes
  pub summary : Codes
  pub start_index : ℕ
  pub end_index : ℕ
  pub approx_tokens : ℕ

mutual
  pub data DocTreeNode : Type 0 where
    node : Section → Children → DocTreeNode

  pub data Children : Type 0 where
    nil : Children
    cons : DocTreeNode → Children → Children

pub record DocumentTree : Type 0 where
  pub document_id : String
  pub root : DocTreeNode
  pub leaf_count : ℕ
  pub max_depth : ℕ

unfoldable mutual
  pub count : DocTreeNode → ℕ
  count (node s cs) = 1 + count_all cs

  pub count_all : Children → ℕ
  count_all nil = 0
  count_all (cons n ns) = count n + count_all ns

-- What `visit` shows to its callback, in order.
unfoldable mutual
  pub visit : DocTreeNode → List Section
  visit (node s cs) = s ∷ visit_all cs

  pub visit_all : Children → List Section
  visit_all nil = []
  visit_all (cons n ns) = visit n ++ visit_all ns

abbrev pub or_else {ℓ} : {A : Type ℓ} → Option A → Option A → Option A
or_else (some a) o = some a
or_else none o = o

unfoldable mutual
  pub find : String → DocTreeNode → Option DocTreeNode
  find path (node s cs) =
      let below = find_in path cs in if str_eq s.path path then some (node s cs) else below

  pub find_in : String → Children → Option DocTreeNode
  find_in path nil = none
  find_in path (cons n ns) = or_else (find path n) (find_in path ns)

abbrev add_titled : Section → List (String × Codes) → List (String × Codes)
add_titled s out = if str_eq s.path "" then out else (s.path, s.title) ∷ out

titled : List Section → List (String × Codes)
titled [] = []
titled (s ∷ ss) = add_titled s (titled ss)

unfoldable pub flat_titles : DocumentTree → List (String × Codes)
unfolding visit titled
flat_titles t = titled (visit t.root)

unfoldable pub node_count : DocumentTree → ℕ
unfolding count
node_count t = count t.root

unfoldable mutual
  pub assign_paths : String → DocTreeNode → DocTreeNode
  assign_paths path (node s cs) = node (record s { path = path }) (assign_children path 0 cs)

  -- The children from the index `i`, below a node of the path `path`.
  pub assign_children : String → ℕ → Children → Children
  assign_children path i nil = nil
  assign_children path i (cons n ns) =
      cons (assign_paths (path <> "." <> decimal (i + 1)) n) (assign_children path (i + 1) ns)

-- The loop over the roots, from the index `i`.
unfoldable pub assign_roots : ℕ → Children → Children
unfolding assign_paths
assign_roots i nil = nil
assign_roots i (cons n ns) = cons (assign_paths (decimal (i + 1)) n) (assign_roots (i + 1) ns)

unfoldable mutual
  pub count_leaves : DocTreeNode → ℕ → ℕ
  count_leaves (node s nil) out = out + 1
  count_leaves (node s (cons n ns)) out = count_leaves_in ns (count_leaves n out)

  pub count_leaves_in : Children → ℕ → ℕ
  count_leaves_in nil out = out
  count_leaves_in (cons n ns) out = count_leaves_in ns (count_leaves n out)

unfoldable pub count_leaves_total : DocTreeNode → ℕ
unfolding count_leaves
count_leaves_total n = max (count_leaves n 0) 1
