-- ===== src/Kb/Headings/Depth.antt =====
-- crates/oracle-automate-kb/src/doc_tree.rs: the depths of the headings that are found.
use oracle_automate.Prelude.{
  ℕ, zero, suc, ◌+◌, ◌≤◌, ◌<◌, ◌%◌, ◌^◌, ◌≡◌, refl, Bool, Bool-cases, true, false, inl, inr, Option,
  none, some, List, [], ◌∷◌, drop, All, nat_eq, ltb, arith,
}
use oracle_automate.Text.Codes.{Codes, byte_length, trim_start, is_prefix}
use oracle_automate.Kb.Headings.{
  Heading, ParsedAtx, body_lines, count_hashes, starts_blank, is_blank, is_digit, with_title,
  atx_depth, atx_title, parse_atx_line, parse_groups, parse_numbered, section_word,
  parse_marker_line, add_heading, scan_lines, detect_atx_headings, detect_section_markers,
  detect_headings, first_found,
}

-- A predicate on what a parser finds.
abbrev Found : (ParsedAtx → Type 0) → Option ParsedAtx → Type 0
Found P none = Unit
Found P (some h) = P h

abbrev IsAtxDepth : ℕ → Type 0
IsAtxDepth d = (1 ≤ d) × (d ≤ 6)

with_title-Found :
    (P : ℕ → Type 0) (d : ℕ) (title : Codes) → P d → Found (λ h. P h.depth) (with_title d title)
with_title-Found P d [] h = tt
with_title-Found P d (c ∷ cs) h = h

count_hashes-le : (d : ℕ) (cs : Codes) → d ≤ 6 → (e : ℕ) → count_hashes d cs ≡ some e → e ≤ 6
unfolding count_hashes
count_hashes-le d [] h e at = ground arith
count_hashes-le d (c ∷ cs) h e at = elim (Bool-cases (ltb 6 (d + 1))) [
  | inl over ↦ ground arith
  | inr fits ↦ ground (arith, count_hashes-le (d + 1) cs (ground (arith, fits)) e)
]

atx_depth-Found :
    (o : Option ℕ) (cs : Codes)
    → ((e : ℕ) → o ≡ some e → e ≤ 6)
    → Found (λ h. IsAtxDepth h.depth) (atx_depth o cs)
unfolding atx_depth atx_title
atx_depth-Found none cs h = tt
atx_depth-Found (some zero) cs h = tt
atx_depth-Found (some (suc d)) cs h = elim (Bool-cases (starts_blank (drop (suc d) cs))) [
  | inl b ↦ rw b (with_title-Found IsAtxDepth (suc d) _ (omega arith, h (suc d) refl))
  | inr b ↦ rw b tt
]

parse_atx_line-Found : (line : Codes) → Found (λ h. IsAtxDepth h.depth) (parse_atx_line line)
unfolding parse_atx_line
parse_atx_line-Found line =
    atx_depth-Found (count_hashes 0 (trim_start line)) (trim_start line)
      (count_hashes-le 0 (trim_start line) (omega arith))

abbrev IsPositive : ℕ → Type 0
IsPositive d = 0 < d

parse_groups-Found :
    (d : ℕ) (digits : Bool) (cs : Codes)
    → Found (λ h. IsPositive h.depth) (parse_groups d digits cs)
unfolding parse_groups
parse_groups-Found d digits [] = tt
parse_groups-Found d true (c ∷ cs) = elim (Bool-cases (is_digit c)) [
  | inl b ↦ rw b (parse_groups-Found d true cs)
  | inr b ↦ elim (Bool-cases (nat_eq c b'.')) [
    | inl dot ↦ rw (b, dot) (parse_groups-Found ((d + 1) % 2 ^ 32) false cs)
    | inr no_dot ↦ rw (b, no_dot) tt
  ]
]
parse_groups-Found d false (c ∷ cs) = elim (Bool-cases (is_digit c)) [
  | inl b ↦ rw b (parse_groups-Found d true cs)
  | inr b ↦ elim (Bool-cases (nat_eq d 0)) [
    | inl z ↦ rw (b, z) tt
    | inr pos ↦ elim (Bool-cases (is_blank c)) [
      | inl sp ↦ rw (b, pos, sp) (with_title-Found IsPositive d _ (ground (arith, pos)))
      | inr other ↦ rw (b, pos, other) tt
    ]
  ]
]

parse_marker_line-Found : (line : Codes) → Found (λ h. IsPositive h.depth) (parse_marker_line line)
unfolding parse_marker_line parse_numbered
parse_marker_line-Found line = elim (Bool-cases (is_prefix section_word (trim_start line))) [
  | inl b ↦ rw b (with_title-Found IsPositive 1 _ (omega arith))
  | inr b ↦ rw b (parse_groups-Found 0 false (trim_start line))
]

add_heading-Found :
    (P : ℕ → Type 0) (i after : ℕ) (o : Option ParsedAtx) (hs : List Heading)
    → Found (λ h. P h.depth) o
    → All (λ h. P h.depth) hs
    → All (λ h. P h.depth) (add_heading i after o hs)
add_heading-Found P i after none hs h w = w
add_heading-Found P i after (some p) hs h w = (h, w)

scan_lines-Found :
    (P : ℕ → Type 0) (parse : Codes → Option ParsedAtx)
    → ((line : Codes) → Found (λ h. P h.depth) (parse line))
    → (n i : ℕ) (ls : List Codes) → All (λ h. P h.depth) (scan_lines parse n i ls)
unfolding scan_lines
scan_lines-Found P parse ok n i [] = tt
scan_lines-Found P parse ok n i (l ∷ ls) =
    add_heading-Found P i _ (parse l) _ (ok l)
      (scan_lines-Found P parse ok n (i + byte_length l + 1) ls)

-- A Markdown heading is one to six levels deep.
pub detect_atx_headings-depth :
    (body : Codes) → All (λ h. (1 ≤ h.depth) × (h.depth ≤ 6)) (detect_atx_headings body)
unfolding detect_atx_headings
detect_atx_headings-depth body =
    scan_lines-Found IsAtxDepth parse_atx_line parse_atx_line-Found (byte_length body) 0
      (body_lines body)

detect_section_markers-depth : (body : Codes) → All (λ h. 0 < h.depth) (detect_section_markers body)
unfolding detect_section_markers
detect_section_markers-depth body =
    scan_lines-Found IsPositive parse_marker_line parse_marker_line-Found (byte_length body) 0
      (body_lines body)

All-positive :
    (hs : List Heading) → All (λ h. (1 ≤ h.depth) × (h.depth ≤ 6)) hs → All (λ h. 0 < h.depth) hs
All-positive [] w = tt
All-positive (h ∷ hs) w = (omega (arith, w.0.0), All-positive hs w.1)

first_found-All :
    (hs other : List Heading)
    → All (λ h. 0 < h.depth) hs
    → All (λ h. 0 < h.depth) other
    → All (λ h. 0 < h.depth) (first_found hs other)
first_found-All [] other a b = b
first_found-All (h ∷ hs) other a b = a

-- No heading that is found has the depth of the root.
pub detect_headings-depth : (body : Codes) → All (λ h. 0 < h.depth) (detect_headings body)
unfolding detect_headings
detect_headings-depth body =
    first_found-All _ (detect_section_markers body)
      (All-positive _ (detect_atx_headings-depth body)) (detect_section_markers-depth body)
