-- ===== src/Kb/Tests.antt =====
-- The knowledge base on concrete inputs.
use oracle_automate.Prelude.{
  string_Eq, eq_iff, true, false, ◌≡◌, refl, ◌⊎◌, inl, inr, sym, ap, ◌∙◌, String, none, some, [],
  ◌∷◌, map,
}
use oracle_automate.Prelude.Map.{get}
use oracle_automate.Text.{codes, decimal}
use oracle_automate.Text.Codes.{Codes, trim, trim_start}
use oracle_automate.Kb.Schema.{oracle_help, Document, Chunk, new_document}
use oracle_automate.Kb.Headings.{
  detect_headings, detect_atx_headings, detect_section_markers, scan_lines, body_lines,
  parse_atx_line, parse_marker_line, count_hashes,
}
use oracle_automate.Kb.Tree.{node, nil, flat_titles, visit, assign_roots, assign_paths}
use oracle_automate.Kb.Assemble.{
  prepare, prepare_windows, place_all, place, push_at, pop_stack, section_of, children_at,
  count_children, children_of, append_node,
}
use oracle_automate.Kb.Assemble.Graft.{graft_all, IsNested}
use oracle_automate.Kb.DocTree.{build_document_tree, build_with, tree_of, sections, root_section}
use oracle_automate.Kb.DocTree.Outline.{
  body_sections, entry, heading_entry, visit-build_document_tree, build_document_tree-IsNested,
  build_document_tree-graft_all,
}
use oracle_automate.Kb.DocTree.Tiling.{IsTiled, sections-IsTiled}
use oracle_automate.Kb.Store.{UpsertBatch, new_kb, upsert}
use oracle_automate.Kb.Store.Dedup.{
  text_of, last_text, IsCollisionFree, Holds, IsConsistent, upsert-last_text,
}

abbrev guide : Document
guide =
    new_document (λ body. "") "d:1" oracle_help "u://1" (codes "Title")
      (codes "# A\nOne. Two!\n### B\nx\n## C\n# D\n")

guide_has_titles :
    flat_titles (build_document_tree guide)
    ≡ ("1", codes "A") ∷ ("1.1", codes "B") ∷ ("1.2", codes "C") ∷ ("2", codes "D") ∷ []
unfolding flat_titles build_document_tree build_with tree_of sections visit codes detect_headings
    detect_atx_headings detect_section_markers scan_lines body_lines parse_atx_line
    parse_marker_line count_hashes trim trim_start prepare prepare_windows place_all place push_at
    pop_stack section_of children_at count_children append_node assign_roots assign_paths decimal
    root_section
guide_has_titles = refl

visit-build_document_tree_example :
    map entry (visit (build_document_tree guide).root)
    ≡ (0, codes "Title", 0) ∷ map heading_entry (detect_headings guide.body)
visit-build_document_tree_example = visit-build_document_tree guide

build_document_tree-IsNested_example : IsNested 0 (children_of (build_document_tree guide).root)
build_document_tree-IsNested_example = build_document_tree-IsNested guide

build_document_tree-graft_all_example :
    (build_document_tree guide).root
    ≡ node (root_section guide) (assign_roots 0 (graft_all (body_sections guide) nil))
build_document_tree-graft_all_example = build_document_tree-graft_all guide

sections-IsTiled_example : IsTiled 31 (body_sections guide)
unfolding codes
sections-IsTiled_example = sections-IsTiled guide

abbrev passage : String → Codes → Chunk
passage id text = record {
  id = id;
  document_id = "d:1";
  domain = oracle_help;
  ordinal = 0;
  text = text;
  embedding = none;
  breadcrumbs = [];
  title = "";
  uri = "";
}

abbrev batch : UpsertBatch
batch = record {
  documents = guide ∷ [];
  chunks =
      passage "c:1" (codes "old") ∷ passage "c:2" (codes "old") ∷ passage "c:1" (codes "new") ∷ [];
}

-- A hash with few values, which tells apart the texts that are in use.
abbrev first_hash : Codes → String
first_hash [] = ""
first_hash (c ∷ cs) = decimal c

abbrev IsSample : Codes → Type 0
IsSample text = (text ≡ codes "old") ⊎ (text ≡ codes "new")

samples_differ : first_hash (codes "old") ≡ first_hash (codes "new") → ⊥
unfolding codes decimal
samples_differ h = let e : false ≡ true = (eq_iff "111" "110").1 h in absurd cc

first_hash-IsCollisionFree : IsCollisionFree first_hash IsSample
unfolding IsCollisionFree
first_hash-IsCollisionFree a b (inl p) (inl q) h = p ∙ sym q
first_hash-IsCollisionFree a b (inr p) (inr q) h = p ∙ sym q
first_hash-IsCollisionFree a b (inl p) (inr q) h =
    absurd (samples_differ (sym (ap first_hash p) ∙ h ∙ ap first_hash q))
first_hash-IsCollisionFree a b (inr p) (inl q) h =
    absurd (samples_differ (sym (ap first_hash q) ∙ sym h ∙ ap first_hash p))

new_kb-Holds : Holds IsSample new_kb
unfolding Holds get
new_kb-Holds id c at = absurd cc

new_kb-IsConsistent : IsConsistent first_hash new_kb
unfolding IsConsistent get
new_kb-IsConsistent id = refl

upsert-last_text_example :
    text_of (get "c:1" (upsert first_hash batch new_kb).chunks) ≡ some (codes "new")
unfolding last_text
upsert-last_text_example =
    upsert-last_text first_hash IsSample batch new_kb "c:1" first_hash-IsCollisionFree
      (inl refl, (inl refl, (inr refl, tt))) new_kb-Holds new_kb-IsConsistent
