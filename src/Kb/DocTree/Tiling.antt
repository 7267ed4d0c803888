-- ===== src/Kb/DocTree/Tiling.antt =====
-- crates/oracle-automate-kb/src/doc_tree.rs: the byte ranges of the sections of a document.
use oracle_automate.Prelude.{
  ℕ, suc, ◌<◌, ◌≡◌, refl, Option, none, some, List, [], ◌∷◌, map, All, arith,
}
use oracle_automate.Text.Codes.{Codes, byte_length}
use oracle_automate.Kb.Schema.{Document}
use oracle_automate.Kb.Headings.{Heading, detect_headings}
use oracle_automate.Kb.Headings.Order.{IsOrdered, detect_headings-IsOrdered}
use oracle_automate.Kb.Headings.Depth.{detect_headings-depth}
use oracle_automate.Kb.Tree.{Section}
use oracle_automate.Kb.Assemble.{prepare, prepare_windows, window, section_of}
use oracle_automate.Kb.DocTree.{sections}
use oracle_automate.Kb.DocTree.Outline.{body_sections, nonzero}

-- Each range is not empty and ends where the next one starts; the last one ends at `n`.
unfoldable pub IsTiled : ℕ → List Section → Type 0
IsTiled n [] = Unit
IsTiled n (s ∷ []) = (s.start_index < s.end_index) × (s.end_index ≡ n)
IsTiled n (s ∷ (t ∷ ss)) =
    (s.start_index < s.end_index) × (s.end_index ≡ t.start_index) × IsTiled n (t ∷ ss)

abbrev first_start : List Section → Option ℕ
first_start [] = none
first_start (s ∷ ss) = some s.start_index

prepare-first_start :
    (body : Codes) (n : ℕ) (k : Heading) (hs : List Heading)
    → 0 < k.depth
    → first_start (map (section_of body) (prepare n (k ∷ hs))) ≡ some k.marker_start
unfolding prepare prepare_windows section_of
prepare-first_start body n k [] w = rw (nonzero k.depth w) refl
prepare-first_start body n k (l ∷ hs) w = rw (nonzero k.depth w) refl

IsTiled-cons :
    (n : ℕ) (s : Section) (ss : List Section)
    → s.start_index < s.end_index
    → first_start ss ≡ some s.end_index
    → IsTiled n ss
    → IsTiled n (s ∷ ss)
unfolding IsTiled
IsTiled-cons n s [] less at w = absurd cc
IsTiled-cons n s (t ∷ ss) less at w = (less, ground (arith, at), w)

prepare-IsTiled :
    (body : Codes) (n i : ℕ) (hs : List Heading)
    → All (λ h. 0 < h.depth) hs
    → IsOrdered i n hs
    → IsTiled n (map (section_of body) (prepare n hs))
unfolding prepare prepare_windows section_of IsTiled IsOrdered
prepare-IsTiled body n i [] w o = tt
prepare-IsTiled body n i (h ∷ []) w o = rw (nonzero h.depth w.0) (o.1, refl)
prepare-IsTiled body n i (h ∷ (k ∷ hs)) w o = rw (nonzero h.depth w.0) (
    IsTiled-cons n (section_of body (window h k)) _ (omega (arith, o.2.0))
      (prepare-first_start body n k hs w.1.0)
      (prepare-IsTiled body n (suc h.marker_start) (k ∷ hs) w.1 o.2))

-- The sections of a document are consecutive, nonempty ranges of its bytes, in order, and the last
-- one ends with the body.
pub sections-IsTiled : (doc : Document) → IsTiled (byte_length doc.body) (body_sections doc)
unfolding sections
sections-IsTiled doc =
    prepare-IsTiled doc.body (byte_length doc.body) 0 (detect_headings doc.body)
      (detect_headings-depth doc.body) (detect_headings-IsOrdered doc.body)
