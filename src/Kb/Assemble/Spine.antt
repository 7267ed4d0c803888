-- ===== src/Kb/Assemble/Spine.antt =====
-- crates/oracle-automate-kb/src/doc_tree.rs: the stack of pointers holds the last nodes of the
-- forest, so that a turn of the loop is the structural insertion.
use mathlib.Core.Path.{subst}
use mathlib.Core.List.{append-nil, append_assoc}
use oracle_automate.Prelude.{
  ℕ, suc, ◌+◌, ◌≤◌, ◌<◌, max, ◌≡◌, refl, sym, ap, ◌∙◌, Bool-cases, true, inl, inr, All, List, [],
  ◌∷◌, ◌++◌, ltb, if◌then◌else◌, arith,
}
use oracle_automate.Kb.Tree.{Section, DocTreeNode, node, Children, nil, cons}
use oracle_automate.Kb.Assemble.{
  Address, Stack, append_node, count_children, children_at, push_at, pop_stack, top, Building,
  place, place_all,
}
use oracle_automate.Kb.Assemble.Graft.{graft, graft_all, IsNested, graft-IsNested}

-- An address in the rest of a forest, read in the forest.
abbrev shift : Address → Address
shift [] = []
shift (i ∷ p) = suc i ∷ p

abbrev offset : ℕ → Address → Address
offset i [] = []
offset i (k ∷ p) = (i + k) ∷ p

-- The address of the node below which `graft` inserts.
parent_of : ℕ → Children → Address
parent_of d nil = []
parent_of d (cons (node s cs) nil) =
    let below = parent_of d cs in if ltb s.depth d then 0 ∷ below else []
parent_of d (cons n (cons m ns)) = shift (parent_of d (cons m ns))

new_address : ℕ → Children → Address
unfolding parent_of
new_address d ns = let p = parent_of d ns in p ++ count_children (children_at p ns) ∷ []

-- The last nodes of the forest, the deepest first, on a stack that is there; `p` and `i` say where
-- the forest begins.
unfoldable pub spine : Address → ℕ → Children → Stack → Stack
spine p i nil st = st
spine p i (cons (node s cs) nil) st = spine (p ++ i ∷ []) 0 cs ((s.depth, p ++ i ∷ []) ∷ st)
spine p i (cons n (cons m ns)) st = spine p (suc i) (cons m ns) st

push_at-shift :
    (p : Address) (x n : DocTreeNode) (ns : Children)
    → push_at (shift p) x (cons n ns) ≡ cons n (push_at p x ns)
unfolding push_at append_node
push_at-shift [] x n ns = refl
push_at-shift (i ∷ p) x n ns = refl

push_at-parent_of :
    (x : Section) (ns : Children) → push_at (parent_of x.depth ns) (node x nil) ns ≡ graft x ns
unfolding push_at parent_of graft append_node
push_at-parent_of x nil = refl
push_at-parent_of x (cons (node s cs) nil) = elim (Bool-cases (ltb s.depth x.depth)) [
  | inl lt ↦ rw lt (ap (λ ds. cons (node s ds) nil) (push_at-parent_of x cs))
  | inr ge ↦ rw ge refl
]
push_at-parent_of x (cons n (cons m ns)) =
    push_at-shift (parent_of x.depth (cons m ns)) (node x nil) n (cons m ns)
    ∙ ap (cons n) (push_at-parent_of x (cons m ns))

new_address-last :
    (p : Address) (n : DocTreeNode) (ns : Children)
    → shift p ++ count_children (children_at (shift p) (cons n ns)) ∷ []
      ≡ shift (p ++ count_children (children_at p ns) ∷ [])
unfolding children_at count_children
new_address-last [] n ns = refl
new_address-last (i ∷ p) n ns = refl

offset-shift : (i : ℕ) (p : Address) → offset (suc i) p ≡ offset i (shift p)
offset-shift i [] = refl
offset-shift i (k ∷ p) = ap (λ j. j ∷ p) (omega arith)

offset_zero : (p : Address) → offset 0 p ≡ p
offset_zero [] = refl
offset_zero (k ∷ p) = ap (λ j. j ∷ p) (omega arith)

offset-child :
    (p : Address) (i : ℕ) (q : Address) → (p ++ i ∷ []) ++ offset 0 q ≡ p ++ offset i (0 ∷ q)
offset-child p i q =
    append_assoc p (i ∷ []) (offset 0 q) ∙ rw (offset_zero q) (ap (λ j. p ++ j ∷ q) (omega arith))

pop_stack_keeps :
    (d k : ℕ) (p : Address) (st : Stack) → ltb k d ≡ true → pop_stack d ((k, p) ∷ st) ≡ (k, p) ∷ st
unfolding pop_stack
pop_stack_keeps d k p st h = ground (arith, h)

pop_stack_drops :
    (d k : ℕ) (p : Address) (st : Stack) → d ≤ k → pop_stack d ((k, p) ∷ st) ≡ pop_stack d st
unfolding pop_stack
pop_stack_drops d k p st h = ground (arith, h)

-- A deeper forest is popped whole.
pop_stack-spine :
    (d e : ℕ) (p : Address) (i : ℕ) (ns : Children) (st : Stack)
    → d ≤ e
    → IsNested e ns
    → pop_stack d (spine p i ns st) ≡ pop_stack d st
unfolding pop_stack spine IsNested
pop_stack-spine d e p i nil st h w = refl
pop_stack-spine d e p i (cons (node s cs) nil) st h w =
    pop_stack-spine d s.depth (p ++ i ∷ []) 0 cs _ (omega (arith, w.0)) w.1
    ∙ pop_stack_drops d s.depth (p ++ i ∷ []) st (omega (arith, h, w.0))
pop_stack-spine d e p i (cons (node s cs) (cons m ns)) st h w =
    pop_stack-spine d e p (suc i) (cons m ns) st h w.2

popped :
    (d : ℕ) (p : Address) (i : ℕ) (s : Section) (cs : Children) (st : Stack)
    → d ≤ s.depth
    → IsNested s.depth cs
    → pop_stack d st ≡ st
    → pop_stack d (spine (p ++ i ∷ []) 0 cs ((s.depth, p ++ i ∷ []) ∷ st)) ≡ st
popped d p i s cs st h w kept =
    pop_stack-spine d s.depth (p ++ i ∷ []) 0 cs _ h w
    ∙ pop_stack_drops d s.depth (p ++ i ∷ []) st h
    ∙ kept

-- What `pop_stack` leaves on top of the spine points to the parent.
top-pop_stack :
    (d e : ℕ) (p : Address) (i : ℕ) (ns : Children) (st : Stack)
    → IsNested e ns
    → pop_stack d st ≡ st
    → top st ≡ p
    → top (pop_stack d (spine p i ns st)) ≡ p ++ offset i (parent_of d ns)
unfolding parent_of spine IsNested
top-pop_stack d e p i nil st w kept at = rw (kept, at, append-nil p) refl
top-pop_stack d e p i (cons (node s cs) nil) st w kept at = elim (Bool-cases (ltb s.depth d)) [
  | inl lt ↦ rw lt (
      top-pop_stack d s.depth (p ++ i ∷ []) 0 cs ((s.depth, p ++ i ∷ []) ∷ st) w.1
        (pop_stack_keeps d s.depth (p ++ i ∷ []) st lt) refl
      ∙ offset-child p i (parent_of d cs))
  | inr ge ↦
      rw ge (ap top (popped d p i s cs st (ground (arith, ge)) w.1 kept) ∙ at ∙ sym (append-nil p))
]
top-pop_stack d e p i (cons (node s cs) (cons m ns)) st w kept at =
    top-pop_stack d e p (suc i) (cons m ns) st w.2 kept at
    ∙ ap (◌++◌ p) (offset-shift i (parent_of d (cons m ns)))

spine-graft :
    (p : Address) (i : ℕ) (x : Section) (n m : DocTreeNode) (ns : Children) (st : Stack)
    → spine p i (cons n (graft x (cons m ns))) st ≡ spine p (suc i) (graft x (cons m ns)) st
unfolding spine graft
spine-graft p i x n (node s cs) nil st = elim (Bool-cases (ltb s.depth x.depth)) [
  | inl lt ↦ rw lt refl
  | inr ge ↦ rw ge refl
]
spine-graft p i x n m (cons k ns) st = refl

-- The stack after a turn of the loop is the spine of the forest after it.
pushed :
    (x : Section) (e : ℕ) (p : Address) (i : ℕ) (ns : Children) (st : Stack)
    → IsNested e ns
    → pop_stack x.depth st ≡ st
    → spine p i (graft x ns) st
      ≡ (x.depth, p ++ offset i (new_address x.depth ns)) ∷ pop_stack x.depth (spine p i ns st)
unfolding new_address parent_of spine graft IsNested children_at count_children
pushed x e p i nil st w kept = rw kept (ap (λ j. (x.depth, p ++ j ∷ []) ∷ st) (omega arith))
pushed x e p i (cons (node s cs) nil) st w kept = elim (Bool-cases (ltb s.depth x.depth)) [
  | inl lt ↦ rw lt (
      pushed x s.depth (p ++ i ∷ []) 0 cs ((s.depth, p ++ i ∷ []) ∷ st) w.1
        (pop_stack_keeps x.depth s.depth (p ++ i ∷ []) st lt)
      ∙ ap
          (λ a.
            (x.depth, a)
            ∷ pop_stack x.depth (spine (p ++ i ∷ []) 0 cs ((s.depth, p ++ i ∷ []) ∷ st)))
          (offset-child p i (new_address x.depth cs)))
  | inr ge ↦
      rw (ge, popped x.depth p i s cs st (ground (arith, ge)) w.1 kept)
        (ap (λ j. (x.depth, p ++ j ∷ []) ∷ st) (omega arith))
]
pushed x e p i (cons (node s cs) (cons m ns)) st w kept =
    spine-graft p i x (node s cs) m ns st
    ∙ pushed x e p (suc i) (cons m ns) st w.2 kept
    ∙ ap (λ a. (x.depth, p ++ a) ∷ pop_stack x.depth (spine p (suc i) (cons m ns) st))
        (offset-shift i (new_address x.depth (cons m ns))
          ∙ ap (offset i)
              (sym (new_address-last (parent_of x.depth (cons m ns)) (node s cs) (cons m ns))))

-- What the loop keeps: the stack is the spine of the forest.
abbrev pub IsSpine : Building → Type 0
IsSpine b = (b.stack ≡ spine [] 0 b.roots []) × IsNested 0 b.roots

unfoldable pub deepest_of : List Section → ℕ → ℕ
deepest_of [] n = n
deepest_of (s ∷ ss) n = deepest_of ss (max n s.depth)

place_lem :
    (s : Section) (b : Building)
    → IsSpine b
    → place s b ≡ record {
      roots = graft s b.roots;
      stack = spine [] 0 (graft s b.roots) [];
      deepest = max b.deepest s.depth;
    }
unfolding place pop_stack new_address
place_lem s b (at, w) =
    let parent : top (pop_stack s.depth b.stack) ≡ parent_of s.depth b.roots =
      rw at (top-pop_stack s.depth 0 [] 0 b.roots [] w refl refl ∙ offset_zero _) in
    let stack = pushed s 0 [] 0 b.roots [] w refl in
    rw (parent, push_at-parent_of s b.roots)
      (ap (λ st. record { roots = graft s b.roots; stack = st; deepest = max b.deepest s.depth })
        (rw at (
          sym (
            stack
            ∙ ap (λ a. (s.depth, a) ∷ pop_stack s.depth (spine [] 0 b.roots []))
                (offset_zero (new_address s.depth b.roots))))))

unfoldable pub IsHeading : Section → Type 0
IsHeading s = 0 < s.depth

pub place_all_lem :
    (ss : List Section) (b : Building)
    → All IsHeading ss
    → IsSpine b
    → ((place_all ss b).roots ≡ graft_all ss b.roots)
      × ((place_all ss b).deepest ≡ deepest_of ss b.deepest)
      × IsNested 0 (graft_all ss b.roots)
unfolding place_all graft_all deepest_of IsHeading
place_all_lem [] b h i = (refl, refl, i.1)
place_all_lem (s ∷ ss) b h i =
    subst
      (λ c.
        ((place_all ss c).roots ≡ graft_all ss (graft s b.roots))
        × ((place_all ss c).deepest ≡ deepest_of ss (max b.deepest s.depth))
        × IsNested 0 (graft_all ss (graft s b.roots)))
      (sym (place_lem s b i))
      (place_all_lem ss
        (record {
          roots = graft s b.roots;
          stack = spine [] 0 (graft s b.roots) [];
          deepest = max b.deepest s.depth;
        })
        h.1 (refl, graft-IsNested 0 s b.roots h.0 i.1))

abbrev pub start : Building
start = record { roots = nil; stack = []; deepest = 0 }
