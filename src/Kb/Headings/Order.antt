-- ===== src/Kb/Headings/Order.antt =====
-- crates/oracle-automate-kb/src/doc_tree.rs: the offsets of the headings that are found.
use mathlib.Core.Path.{subst}
use oracle_automate.Prelude.{
  ℕ, suc, ◌+◌, ◌≤◌, ◌<◌, ◌≡◌, Bool-cases, inl, inr, Option, none, some, List, [], ◌∷◌, nat_eq,
  arith,
}
use oracle_automate.Text.Codes.{Codes, byte_length, utf8_size, add_to_first}
use oracle_automate.Kb.Headings.{
  Heading, ParsedAtx, body_lines, add_heading, scan_lines, parse_atx_line, parse_marker_line,
  detect_headings, detect_atx_headings, detect_section_markers, first_found,
}

-- Lines from the byte `i` on, each of which starts inside a body of `n` bytes.
Fits : ℕ → ℕ → List Codes → Type 0
Fits i n [] = Unit
Fits i n (l ∷ ls) = (i < n) × Fits (i + byte_length l + 1) n ls

Fits-add_to_first :
    (i n c : ℕ) (ls : List Codes)
    → i < n
    → Fits (i + utf8_size c) n ls
    → Fits i n (add_to_first c ls)
unfolding Fits
Fits-add_to_first i n c [] h w = (h, tt)
Fits-add_to_first i n c (l ∷ ls) h w = (h, subst (λ j. Fits j n ls) (omega arith) w.1)

Fits-body_lines : (i n : ℕ) (cs : Codes) → i + byte_length cs ≡ n → Fits i n (body_lines cs)
unfolding Fits body_lines
Fits-body_lines i n [] h = tt
Fits-body_lines i n (c ∷ cs) h = elim (Bool-cases (nat_eq c b'\n')) [
  | inl b ↦ rw b (ground (arith, b), Fits-body_lines (i + 0 + 1) n cs (ground (arith, b)))
  | inr b ↦ rw b (
      Fits-add_to_first i n c (body_lines cs) (ground arith)
        (Fits-body_lines (i + utf8_size c) n cs (omega (arith, h))))
]

-- Headings in the order of the body, from the byte `i` on and inside its `n` bytes.
unfoldable pub IsOrdered : ℕ → ℕ → List Heading → Type 0
IsOrdered i n [] = Unit
IsOrdered i n (h ∷ hs) =
    (i ≤ h.marker_start) × (h.marker_start < n) × IsOrdered (suc h.marker_start) n hs

IsOrdered-later : (i j n : ℕ) (hs : List Heading) → i ≤ j → IsOrdered j n hs → IsOrdered i n hs
unfolding IsOrdered
IsOrdered-later i j n [] h w = tt
IsOrdered-later i j n (k ∷ hs) h w = (omega (arith, h, w.0), w.1, w.2)

add_heading-IsOrdered :
    (i after j n : ℕ) (o : Option ParsedAtx) (hs : List Heading)
    → i < n
    → i < j
    → IsOrdered j n hs
    → IsOrdered i n (add_heading i after o hs)
unfolding IsOrdered
add_heading-IsOrdered i after j n none hs h less w =
    IsOrdered-later i j n hs (omega (arith, less)) w
add_heading-IsOrdered i after j n (some p) hs h less w =
    (omega arith, h, IsOrdered-later (suc i) j n hs (omega (arith, less)) w)

scan_lines-IsOrdered :
    (parse : Codes → Option ParsedAtx) (n i : ℕ) (ls : List Codes)
    → Fits i n ls
    → IsOrdered i n (scan_lines parse n i ls)
unfolding Fits scan_lines IsOrdered
scan_lines-IsOrdered parse n i [] w = tt
scan_lines-IsOrdered parse n i (l ∷ ls) w =
    add_heading-IsOrdered i _ (i + byte_length l + 1) n (parse l) _ w.0 (omega arith)
      (scan_lines-IsOrdered parse n (i + byte_length l + 1) ls w.1)

first_found-IsOrdered :
    (i n : ℕ) (hs other : List Heading)
    → IsOrdered i n hs
    → IsOrdered i n other
    → IsOrdered i n (first_found hs other)
first_found-IsOrdered i n [] other a b = b
first_found-IsOrdered i n (h ∷ hs) other a b = a

pub detect_headings-IsOrdered :
    (body : Codes) → IsOrdered 0 (byte_length body) (detect_headings body)
unfolding detect_headings detect_atx_headings detect_section_markers
detect_headings-IsOrdered body =
    let fits = Fits-body_lines 0 (byte_length body) body (omega arith) in
    first_found-IsOrdered 0 (byte_length body) _ _
      (scan_lines-IsOrdered parse_atx_line (byte_length body) 0 (body_lines body) fits)
      (scan_lines-IsOrdered parse_marker_line (byte_length body) 0 (body_lines body) fits)
