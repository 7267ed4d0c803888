-- ===== src/Kb/Headings.antt =====
-- crates/oracle-automate-kb/src/doc_tree.rs: the two dialects of headings, and the extractive
-- summary. Offsets are bytes of the body in UTF-8.
pub mod Depth
pub mod Order
pub mod Summary
use oracle_automate.Prelude.{
  ℕ, zero, suc, ◌+◌, ◌%◌, ◌^◌, min, Bool, true, false, ◌&&◌, ◌||◌, Option, none, some, List, [],
  ◌∷◌, drop, reverse, ltb, leb, nat_eq, if◌then◌else◌,
}
use oracle_automate.Text.Codes.{
  Codes, byte_length, utf8_size, is_empty, is_prefix, trim, trim_start, add_to_first,
}

pub record Heading : Type 0 where
  pub depth : ℕ
  pub title : Codes
  pub marker_start : ℕ
  pub body_start : ℕ

pub record ParsedAtx : Type 0 where
  pub depth : ℕ
  pub title : Codes

-- The lines that the scans of a body see: no line starts at the body's end.
unfoldable pub body_lines : Codes → List Codes
body_lines [] = []
body_lines (c ∷ cs) =
    let rest = body_lines cs in if nat_eq c b'\n' then [] ∷ rest else add_to_first c rest

-- The hashes that a line starts with; none once there are more than six.
unfoldable pub count_hashes : ℕ → Codes → Option ℕ
count_hashes depth [] = some depth
count_hashes depth (c ∷ cs) =
    let rest = count_hashes (depth + 1) cs in
    if nat_eq c b'#' then (if ltb 6 (depth + 1) then none else rest) else some depth

abbrev is_blank : ℕ → Bool
is_blank c = nat_eq c b' ' || nat_eq c b'\t'

abbrev starts_blank : Codes → Bool
starts_blank [] = false
starts_blank (c ∷ cs) = is_blank c

drop_hashes : Codes → Codes
drop_hashes [] = []
drop_hashes (c ∷ cs) = let rest = drop_hashes cs in if nat_eq c b'#' then rest else c ∷ cs

-- `trim_end_matches('#')`
trim_end_hashes : Codes → Codes
unfolding drop_hashes
trim_end_hashes cs = reverse (drop_hashes (reverse cs))

abbrev with_title : ℕ → Codes → Option ParsedAtx
with_title depth title =
    if is_empty title then none else some (record { depth = depth; title = title })

-- What follows `depth` hashes.
atx_title : ℕ → Codes → Option ParsedAtx
unfolding trim_end_hashes
atx_title depth rest =
    if starts_blank rest then with_title depth (trim (trim_end_hashes (trim rest))) else none

atx_depth : Option ℕ → Codes → Option ParsedAtx
unfolding atx_title
atx_depth none trimmed = none
atx_depth (some zero) trimmed = none
atx_depth (some (suc d)) trimmed = atx_title (suc d) (drop (suc d) trimmed)

unfoldable pub parse_atx_line : Codes → Option ParsedAtx
unfolding count_hashes atx_depth
parse_atx_line line = let trimmed = trim_start line in atx_depth (count_hashes 0 trimmed) trimmed

abbrev is_digit : ℕ → Bool
is_digit c = leb b'0' c && leb c b'9'

-- The groups `digits + dot`; `digits` says that the last thing read was a digit. `depth` is a u32.
unfoldable pub parse_groups : ℕ → Bool → Codes → Option ParsedAtx
parse_groups depth digits [] = none
parse_groups depth true (c ∷ cs) =
    let more = parse_groups depth true cs in
    let next = parse_groups ((depth + 1) % 2 ^ 32) false cs in
    if is_digit c then more else if nat_eq c b'.' then next else none
parse_groups depth false (c ∷ cs) =
    let more = parse_groups depth true cs in
    if is_digit c
    then more
    else if nat_eq depth 0
    then none
    else if is_blank c
    then with_title depth (trim (c ∷ cs))
    else none

unfoldable pub parse_numbered : Codes → Option ParsedAtx
unfolding parse_groups
parse_numbered line = parse_groups 0 false line

section_word : Codes
section_word = b'S' ∷ b'E' ∷ b'C' ∷ b'T' ∷ b'I' ∷ b'O' ∷ b'N' ∷ b':' ∷ []

-- A line that starts with `SECTION:` is never read as a numbered heading.
unfoldable pub parse_marker_line : Codes → Option ParsedAtx
unfolding section_word parse_numbered
parse_marker_line line =
    let trimmed = trim_start line in
    if is_prefix section_word trimmed
    then with_title 1 (trim (drop 8 trimmed))
    else parse_numbered trimmed

abbrev add_heading : ℕ → ℕ → Option ParsedAtx → List Heading → List Heading
add_heading start after none hs = hs
add_heading start after (some p) hs =
    record { depth = p.depth; title = p.title; marker_start = start; body_start = after } ∷ hs

-- The loop over the lines, from the byte `start` of a body of `n` bytes.
unfoldable pub scan_lines : (Codes → Option ParsedAtx) → ℕ → ℕ → List Codes → List Heading
scan_lines parse n start [] = []
scan_lines parse n start (line ∷ ls) =
    let after = start + byte_length line + 1 in
    add_heading start (min after n) (parse line) (scan_lines parse n after ls)

unfoldable pub detect_atx_headings : Codes → List Heading
unfolding scan_lines body_lines
detect_atx_headings body = scan_lines parse_atx_line (byte_length body) 0 (body_lines body)

unfoldable pub detect_section_markers : Codes → List Heading
unfolding scan_lines body_lines
detect_section_markers body = scan_lines parse_marker_line (byte_length body) 0 (body_lines body)

abbrev pub first_found : List Heading → List Heading → List Heading
first_found [] other = other
first_found (h ∷ hs) other = h ∷ hs

unfoldable pub detect_headings : Codes → List Heading
unfolding detect_atx_headings detect_section_markers
detect_headings body = first_found (detect_atx_headings body) (detect_section_markers body)

abbrev ends_sentence : ℕ → Bool
ends_sentence c = nat_eq c b'.' || nat_eq c b'!' || nat_eq c b'?'

-- Two sentences, or the code points up to the one that reaches 280 bytes.
unfoldable pub summary_text : ℕ → ℕ → Codes → Codes
summary_text sentences len [] = []
summary_text sentences len (c ∷ cs) =
    let ended = (if ends_sentence c then sentences + 1 else sentences) in
    let bytes = len + utf8_size c in
    let rest = summary_text ended bytes cs in
    if leb 2 ended || leb 280 bytes then c ∷ [] else c ∷ rest

unfoldable pub extract_summary : Codes → Codes
unfolding summary_text
extract_summary body = trim (summary_text 0 0 (trim body))
