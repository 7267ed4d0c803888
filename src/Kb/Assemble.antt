-- ===== src/Kb/Assemble.antt =====
-- crates/oracle-automate-kb/src/doc_tree.rs, `build_document_tree`: the sections between the
-- headings, and the loop that hangs each below its parent. A raw pointer to a node is the node's
-- address: the indices of the children from the roots down.
pub mod Graft
pub mod Spine
use oracle_automate.Prelude.{
  ℕ, zero, suc, ◌+◌, ◌-◌, ◌/◌, ◌%◌, ◌^◌, max, String, Bool, true, false, Option, none, some, List,
  [], ◌∷◌, ◌++◌, ltb, leb, nat_eq, if◌then◌else◌,
}
use oracle_automate.Text.Codes.{Codes, byte_length, skip_bytes, take_bytes}
use oracle_automate.Kb.Headings.{Heading, extract_summary}
use oracle_automate.Kb.Tree.{Section, DocTreeNode, node, Children, nil, cons}

pub record PreparedSection : Type 0 where
  pub depth : ℕ
  pub title : Codes
  pub start : ℕ
  pub body_start : ℕ
  pub end_ : ℕ

abbrev pub sentinel : ℕ → Heading
sentinel body_len = record { depth = 0; title = []; marker_start = body_len; body_start = body_len }

abbrev pub window : Heading → Heading → PreparedSection
window cur next = record {
  depth = cur.depth;
  title = cur.title;
  start = cur.marker_start;
  body_start = cur.body_start;
  end_ = next.marker_start;
}

-- `windows(2)` over the headings and the sentinel.
unfoldable pub prepare_windows : List Heading → List PreparedSection
prepare_windows [] = []
prepare_windows (cur ∷ []) = []
prepare_windows (cur ∷ (next ∷ hs)) =
    let rest = prepare_windows (next ∷ hs) in
    if nat_eq cur.depth 0 then rest else window cur next ∷ rest

unfoldable pub prepare : ℕ → List Heading → List PreparedSection
unfolding prepare_windows
prepare body_len headings = prepare_windows (headings ++ sentinel body_len ∷ [])

slice_in : ℕ → Option Codes → Option Codes
unfolding take_bytes
slice_in n none = none
slice_in n (some cs) = take_bytes n cs

-- `str::get(from..to)`
unfoldable pub get_range : ℕ → ℕ → Codes → Option Codes
unfolding skip_bytes slice_in
get_range from to cs = if ltb to from then none else slice_in (to - from) (skip_bytes from cs)

abbrev pub or_empty : Option Codes → Codes
or_empty none = []
or_empty (some cs) = cs

unfoldable pub section_of : Codes → PreparedSection → Section
unfolding get_range
section_of body ps =
    let slice = or_empty (get_range ps.body_start ps.end_ body) in
    record {
      path = "";
      depth = ps.depth;
      title = ps.title;
      summary = extract_summary slice;
      start_index = ps.start;
      end_index = ps.end_;
      approx_tokens = (byte_length slice / 4) % 2 ^ 32;
    }

abbrev pub Address : Type 0
Address = List ℕ

-- The stack, its top first.
abbrev pub Stack : Type 0
Stack = List (ℕ × Address)

unfoldable pub append_node : DocTreeNode → Children → Children
append_node x nil = cons x nil
append_node x (cons n ns) = cons n (append_node x ns)

abbrev pub children_of : DocTreeNode → Children
children_of (node s cs) = cs

unfoldable pub count_children : Children → ℕ
count_children nil = 0
count_children (cons n ns) = suc (count_children ns)

-- The children of the node at an address; those of no node are the roots.
unfoldable pub children_at : Address → Children → Children
children_at [] ns = ns
children_at (i ∷ p) nil = nil
children_at (zero ∷ p) (cons (node s cs) ns) = children_at p cs
children_at (suc i ∷ p) (cons n ns) = children_at (i ∷ p) ns

-- `children.push` through a pointer, and `roots.push`.
unfoldable pub push_at : Address → DocTreeNode → Children → Children
unfolding append_node
push_at [] x ns = append_node x ns
push_at (i ∷ p) x nil = nil
push_at (zero ∷ p) x (cons (node s cs) ns) = cons (node s (push_at p x cs)) ns
push_at (suc i ∷ p) x (cons n ns) = cons n (push_at (i ∷ p) x ns)

unfoldable pub pop_stack : ℕ → Stack → Stack
pop_stack depth [] = []
pop_stack depth ((d, p) ∷ st) =
    let rest = pop_stack depth st in if leb depth d then rest else (d, p) ∷ st

-- The parent that the stack's top points to; the roots have none.
abbrev pub top : Stack → Address
top [] = []
top ((d, p) ∷ st) = p

pub record Building : Type 0 where
  pub roots : Children
  pub stack : Stack
  pub deepest : ℕ

-- One turn of the loop: the pointer to the new node is the last of its siblings.
unfoldable pub place : Section → Building → Building
unfolding push_at pop_stack children_at count_children
place s b =
    let st = pop_stack s.depth b.stack in
    record {
      roots = push_at (top st) (node s nil) b.roots;
      stack = (s.depth, top st ++ count_children (children_at (top st) b.roots) ∷ []) ∷ st;
      deepest = max b.deepest s.depth;
    }

unfoldable pub place_all : List Section → Building → Building
unfolding place
place_all [] b = b
place_all (s ∷ ss) b = place_all ss (place s b)
