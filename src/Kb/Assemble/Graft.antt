-- ===== src/Kb/Assemble/Graft.antt =====
-- crates/oracle-automate-kb/src/doc_tree.rs: a structural insertion, which descends the last nodes
-- of the forest, as the reference of the loop with its stack of pointers.
use mathlib.Core.List.{append-nil, append_assoc}
use oracle_automate.Prelude.{
  ℕ, ◌<◌, ◌≡◌, refl, sym, ap, ◌∙◌, Bool-cases, inl, inr, List, [], ◌∷◌, ◌++◌, ltb, if◌then◌else◌,
  arith,
}
use oracle_automate.Kb.Tree.{Section, node, Children, nil, cons, visit, visit_all}

-- A section goes below the last node as long as that is a shallower heading, else after it.
unfoldable pub graft : Section → Children → Children
graft x nil = cons (node x nil) nil
graft x (cons (node s cs) nil) =
    let below = graft x cs in
    if ltb s.depth x.depth
    then cons (node s below) nil
    else cons (node s cs) (cons (node x nil) nil)
graft x (cons n (cons m ns)) = cons n (graft x (cons m ns))

unfoldable pub graft_all : List Section → Children → Children
unfolding graft
graft_all [] ns = ns
graft_all (s ∷ ss) ns = graft_all ss (graft s ns)

-- Every node is deeper than its parent, and than `d`.
unfoldable pub IsNested : ℕ → Children → Type 0
IsNested d nil = Unit
IsNested d (cons (node s cs) ns) = (d < s.depth) × IsNested s.depth cs × IsNested d ns

pub graft-IsNested :
    (d : ℕ) (x : Section) (ns : Children) → d < x.depth → IsNested d ns → IsNested d (graft x ns)
unfolding graft IsNested
graft-IsNested d x nil h w = (h, tt, tt)
graft-IsNested d x (cons (node s cs) nil) h w = elim (Bool-cases (ltb s.depth x.depth)) [
  | inl lt ↦ rw lt (w.0, graft-IsNested s.depth x cs (ground (arith, lt)) w.1, tt)
  | inr ge ↦ rw ge (w.0, w.1, (h, tt, tt))
]
graft-IsNested d x (cons (node s cs) (cons m ns)) h w =
    (w.0, w.1, graft-IsNested d x (cons m ns) h w.2)

visit_all-graft : (x : Section) (ns : Children) → visit_all (graft x ns) ≡ visit_all ns ++ x ∷ []
unfolding graft visit_all
visit_all-graft x nil = refl
visit_all-graft x (cons (node s cs) nil) = elim (Bool-cases (ltb s.depth x.depth)) [
  | inl lt ↦ rw lt (
      ap (◌∷◌ s) (
        append-nil (visit_all (graft x cs))
        ∙ visit_all-graft x cs
        ∙ ap (λ l. l ++ x ∷ []) (sym (append-nil (visit_all cs)))))
  | inr ge ↦ rw ge (ap (λ l. s ∷ (l ++ x ∷ [])) (sym (append-nil (visit_all cs))))
]
visit_all-graft x (cons n (cons m ns)) =
    ap (◌++◌ (visit n)) (visit_all-graft x (cons m ns))
    ∙ sym (append_assoc (visit n) (visit_all (cons m ns)) (x ∷ []))

pub visit_all-graft_all :
    (ss : List Section) (ns : Children) → visit_all (graft_all ss ns) ≡ visit_all ns ++ ss
unfolding graft_all
visit_all-graft_all [] ns = sym (append-nil (visit_all ns))
visit_all-graft_all (s ∷ ss) ns =
    visit_all-graft_all ss (graft s ns)
    ∙ ap (λ l. l ++ ss) (visit_all-graft s ns)
    ∙ append_assoc (visit_all ns) (s ∷ []) ss
