-- ===== src/Kb/DocTree.antt =====
-- crates/oracle-automate-kb/src/doc_tree.rs, `build_document_tree`.
pub mod Outline
pub mod Tiling
use oracle_automate.Prelude.{ℕ, ◌/◌, ◌%◌, ◌^◌, List, [], ◌∷◌, map}
use oracle_automate.Text.Codes.{byte_length}
use oracle_automate.Kb.Schema.{Document}
use oracle_automate.Kb.Headings.{Heading, detect_headings, extract_summary}
use oracle_automate.Kb.Tree.{
  Section, DocTreeNode, node, Children, nil, DocumentTree, assign_roots, count_leaves_total,
}
use oracle_automate.Kb.Assemble.{prepare, section_of, Building, place_all}

-- The node of the whole body, above the sections.
unfoldable pub root_section : Document → Section
root_section doc = record {
  path = "";
  depth = 0;
  title = doc.title;
  summary = extract_summary doc.body;
  start_index = 0;
  end_index = byte_length doc.body;
  approx_tokens = (byte_length doc.body / 4) % 2 ^ 32;
}

unfoldable pub sections : Document → List Heading → List Section
sections doc headings = map (section_of doc.body) (prepare (byte_length doc.body) headings)

unfoldable pub tree_of : Document → Building → DocumentTree
unfolding root_section
tree_of doc b =
    let root = node (root_section doc) (assign_roots 0 b.roots) in
    record {
      document_id = doc.id;
      root = root;
      leaf_count = count_leaves_total root;
      max_depth = b.deepest;
    }

unfoldable pub build_with : Document → List Heading → DocumentTree
unfolding root_section sections tree_of place_all
build_with doc [] = record {
  document_id = doc.id;
  root = node (root_section doc) nil;
  leaf_count = 1;
  max_depth = 0;
}
build_with doc (h ∷ hs) =
    tree_of doc
      (place_all (sections doc (h ∷ hs)) (record { roots = nil; stack = []; deepest = 0 }))

unfoldable pub build_document_tree : Document → DocumentTree
unfolding build_with
build_document_tree doc = build_with doc (detect_headings doc.body)
