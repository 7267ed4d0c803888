-- ===== src/Kb/DocTree/Outline.antt =====
-- crates/oracle-automate-kb/src/doc_tree.rs: what the tree of a document holds, in which order and
-- at which depth.
use oracle_automate.Prelude.{
  ℕ, suc, ◌+◌, ◌<◌, ◌≡◌, refl, sym, ap, ◌∙◌, false, List, [], ◌∷◌, ◌++◌, length, length-append, map,
  All, String, nat_eq, arith,
}
use oracle_automate.Text.{◌<>◌, decimal}
use oracle_automate.Text.Codes.{Codes, byte_length}
use oracle_automate.Kb.Schema.{Document}
use oracle_automate.Kb.Headings.{Heading, detect_headings}
use oracle_automate.Kb.Headings.Depth.{detect_headings-depth}
use oracle_automate.Kb.Tree.{
  Section, DocTreeNode, node, Children, nil, cons, visit, visit_all, count, count_all, node_count,
  assign_paths, assign_children, assign_roots,
}
use oracle_automate.Kb.Assemble.{children_of, prepare, prepare_windows, section_of}
use oracle_automate.Kb.Assemble.Graft.{graft_all, IsNested, visit_all-graft_all}
use oracle_automate.Kb.Assemble.Spine.{IsHeading, start, spine, deepest_of, place_all_lem}
use oracle_automate.Kb.DocTree.{build_document_tree, build_with, tree_of, root_section, sections}

-- What names a section in the source: its depth, its title and where it starts.
abbrev pub Entry : Type 0
Entry = ℕ × Codes × ℕ

abbrev pub entry : Section → Entry
entry s = (s.depth, s.title, s.start_index)

abbrev pub heading_entry : Heading → Entry
heading_entry h = (h.depth, h.title, h.marker_start)

-- A view of a section that does not see its path.
module _ {B : Type 0} (f : Section → B)
    (blind : (p : String) (s : Section) → f (record s { path = p }) ≡ f s) where
  map-append : (xs ys : List Section) → map f (xs ++ ys) ≡ map f xs ++ map f ys
  map-append [] ys = refl
  map-append (x ∷ xs) ys = ap (◌∷◌ (f x)) (map-append xs ys)

  map-append_both :
      (us vs xs ys : List Section)
      → map f us ≡ map f xs
      → map f vs ≡ map f ys
      → map f (us ++ vs) ≡ map f (xs ++ ys)
  map-append_both us vs xs ys l r = map-append us vs ∙ rw (l, r) (sym (map-append xs ys))

  mutual
    unfolding visit assign_paths

    visit-assign_paths :
        (p : String) (n : DocTreeNode) → map f (visit (assign_paths p n)) ≡ map f (visit n)
    visit-assign_paths p (node s cs) =
        rw (blind p s) (ap (◌∷◌ (f s)) (visit-assign_children p 0 cs))

    visit-assign_children :
        (p : String) (i : ℕ) (ns : Children)
        → map f (visit_all (assign_children p i ns)) ≡ map f (visit_all ns)
    visit-assign_children p i nil = refl
    visit-assign_children p i (cons n ns) =
        map-append_both _ _ (visit n) (visit_all ns)
          (visit-assign_paths (p <> "." <> decimal (i + 1)) n) (visit-assign_children p (i + 1) ns)

  visit-assign_roots :
      (i : ℕ) (ns : Children) → map f (visit_all (assign_roots i ns)) ≡ map f (visit_all ns)
  unfolding visit assign_roots
  visit-assign_roots i nil = refl
  visit-assign_roots i (cons n ns) =
      map-append_both _ _ (visit n) (visit_all ns) (visit-assign_paths (decimal (i + 1)) n)
        (visit-assign_roots (i + 1) ns)

pub nonzero : (d : ℕ) → 0 < d → nat_eq d 0 ≡ false
nonzero d h = ground (arith, h)

prepare-entries :
    (body : Codes) (n : ℕ) (hs : List Heading)
    → All (λ h. 0 < h.depth) hs
    → map entry (map (section_of body) (prepare n hs)) ≡ map heading_entry hs
unfolding prepare prepare_windows section_of
prepare-entries body n [] w = refl
prepare-entries body n (h ∷ []) w = rw (nonzero h.depth w.0) refl
prepare-entries body n (h ∷ (k ∷ hs)) w =
    rw (nonzero h.depth w.0) (ap (◌∷◌ (heading_entry h)) (prepare-entries body n (k ∷ hs) w.1))

prepare-IsHeading :
    (body : Codes) (n : ℕ) (hs : List Heading)
    → All (λ h. 0 < h.depth) hs
    → All IsHeading (map (section_of body) (prepare n hs))
unfolding prepare prepare_windows section_of IsHeading
prepare-IsHeading body n [] w = tt
prepare-IsHeading body n (h ∷ []) w = rw (nonzero h.depth w.0) (w.0, tt)
prepare-IsHeading body n (h ∷ (k ∷ hs)) w =
    rw (nonzero h.depth w.0) (w.0, prepare-IsHeading body n (k ∷ hs) w.1)

-- The sections of a document, one for each heading that is found.
abbrev pub body_sections : Document → List Section
body_sections doc = sections doc (detect_headings doc.body)

build_with_lem :
    (doc : Document) (hs : List Heading)
    → All (λ h. 0 < h.depth) hs
    → ((build_with doc hs).root
        ≡ node (root_section doc) (assign_roots 0 (graft_all (sections doc hs) nil)))
      × ((build_with doc hs).max_depth ≡ deepest_of (sections doc hs) 0)
      × IsNested 0 (graft_all (sections doc hs) nil)
unfolding build_with tree_of sections IsNested assign_roots graft_all deepest_of prepare
    prepare_windows spine
build_with_lem doc [] w = (refl, refl, tt)
build_with_lem doc (h ∷ hs) w =
    let p =
      place_all_lem (sections doc (h ∷ hs)) start
        (prepare-IsHeading doc.body (byte_length doc.body) (h ∷ hs) w) (refl, tt) in
    (ap (λ ns. node (root_section doc) (assign_roots 0 ns)) p.0, p.1, p.2)

-- The stack of raw pointers builds the tree of the structural insertion, which puts a section below
-- the last node of each level as long as that node has a shallower heading.
pub build_document_tree-graft_all :
    (doc : Document)
    → (build_document_tree doc).root
      ≡ node (root_section doc) (assign_roots 0 (graft_all (body_sections doc) nil))
unfolding build_document_tree
build_document_tree-graft_all doc =
    (build_with_lem doc (detect_headings doc.body) (detect_headings-depth doc.body)).0

-- The walk of a document's tree shows the document and then every heading that is found, once and in
-- the order of the body, with its depth, its title and its offset.
pub visit-build_document_tree :
    (doc : Document)
    → map entry (visit (build_document_tree doc).root)
      ≡ (0, doc.title, 0) ∷ map heading_entry (detect_headings doc.body)
unfolding visit root_section sections
visit-build_document_tree doc = rw (build_document_tree-graft_all doc) (
    ap (◌∷◌ (0, doc.title, 0)) (
      visit-assign_roots entry (λ p s. refl) 0 (graft_all (body_sections doc) nil)
      ∙ ap (map entry) (visit_all-graft_all (body_sections doc) nil)
      ∙ prepare-entries doc.body (byte_length doc.body) (detect_headings doc.body)
          (detect_headings-depth doc.body)))

-- `count` is the number of sections that the walk shows.
mutual
  unfolding count visit

  count-visit : (n : DocTreeNode) → count n ≡ length (visit n)
  count-visit (node s cs) = omega (arith, count_all-visit cs)

  count_all-visit : (ns : Children) → count_all ns ≡ length (visit_all ns)
  count_all-visit nil = refl
  count_all-visit (cons n ns) =
      omega (arith, count-visit n, count_all-visit ns, length-append (visit n) (visit_all ns))

length-map {ℓ κ} :
    {A : Type ℓ} {B : Type κ} (f : A → B) (xs : List A) → length (map f xs) ≡ length xs
length-map f [] = refl
length-map f (x ∷ xs) = ap suc (length-map f xs)

-- A document's tree has one node for each heading that is found, and one for the document.
pub node_count-build_document_tree :
    (doc : Document) → node_count (build_document_tree doc) ≡ length (detect_headings doc.body) + 1
unfolding node_count
node_count-build_document_tree doc = omega (
  arith,
  count-visit (build_document_tree doc).root,
  length-map entry (visit (build_document_tree doc).root),
  ap length (visit-build_document_tree doc),
  length-map heading_entry (detect_headings doc.body),
)

mutual
  unfolding IsNested assign_paths

  assign_children-IsNested :
      (p : String) (i d : ℕ) (ns : Children) → IsNested d ns → IsNested d (assign_children p i ns)
  assign_children-IsNested p i d nil w = tt
  assign_children-IsNested p i d (cons (node s cs) ns) w = (
    w.0,
    assign_children-IsNested (p <> "." <> decimal (i + 1)) 0 s.depth cs w.1,
    assign_children-IsNested p (i + 1) d ns w.2,
  )

assign_roots-IsNested : (i d : ℕ) (ns : Children) → IsNested d ns → IsNested d (assign_roots i ns)
unfolding IsNested assign_roots assign_paths
assign_roots-IsNested i d nil w = tt
assign_roots-IsNested i d (cons (node s cs) ns) w = (
  w.0,
  assign_children-IsNested (decimal (i + 1)) 0 s.depth cs w.1,
  assign_roots-IsNested (i + 1) d ns w.2,
)

-- Every section of a document's tree has a deeper heading than its parent.
pub build_document_tree-IsNested :
    (doc : Document) → IsNested 0 (children_of (build_document_tree doc).root)
build_document_tree-IsNested doc = rw (build_document_tree-graft_all doc) (
    assign_roots-IsNested 0 0 (graft_all (body_sections doc) nil)
      (build_with_lem doc (detect_headings doc.body) (detect_headings-depth doc.body)).2)
