-- ===== src/Ingest/Chunker.antt =====
-- crates/oracle-automate-ingest/src/chunker.rs, `split_text`: where a text is cut. The text is the
-- list of its bytes in UTF-8, and `trim` is `str::trim` on those. A slice whose end lies before its
-- start panics. The sum of an offset and the target stays below 2^64: a text has fewer than 2^63
-- bytes, and so has the target.
mod Searches
pub mod Cover
pub mod Texts
mod Tests
use oracle_automate.Prelude.{
  ℕ, zero, suc, ◌+◌, ◌-◌, ◌/◌, min, max, Bool, true, false, not, ◌&&◌, ◌||◌, Option, none, some,
  List, [], ◌∷◌, length, get_elem?, take, drop, ltb, leb, nat_eq, if◌then◌else◌,
}
use oracle_automate.Text.Codes.{is_empty}

abbrev pub Bytes : Type 0
Bytes = List ℕ

abbrev is_among : (ℕ → Bool) → Option ℕ → Bool
is_among p none = false
is_among p (some b) = p b

abbrev is_continuation : ℕ → Bool
is_continuation b = leb 128 b && leb b 191

-- `is_char_boundary`, inside the text or at its end.
unfoldable pub is_char_boundary : Bytes → ℕ → Bool
is_char_boundary bytes i =
    nat_eq i (length bytes) || not (is_among is_continuation (get_elem? bytes i))

abbrev is_stop : ℕ → Bool
is_stop b = nat_eq b b'.' || nat_eq b b'?' || nat_eq b b'!'

abbrev is_gap : ℕ → Bool
is_gap b = nat_eq b b' ' || nat_eq b b'\n'

-- A sentence ends just before `i + 2`.
abbrev ends_at : Bytes → ℕ → Bool
ends_at bytes i = is_among is_stop (get_elem? bytes i) && is_among is_gap (get_elem? bytes (suc i))

sentence_down : Bytes → ℕ → ℕ → Option ℕ
sentence_down bytes from zero = none
sentence_down bytes from (suc zero) = none
sentence_down bytes from (suc (suc i)) =
    let rest = sentence_down bytes from (suc i) in
    if ltb (from + 1) (suc (suc i))
    then (if ends_at bytes i then some (suc (suc i)) else rest)
    else none

unfoldable pub find_sentence_end : Bytes → ℕ → ℕ → Option ℕ
unfolding sentence_down
find_sentence_end bytes from to =
    let to' = min to (length bytes) in sentence_down bytes (min from to') to'

space_down : Bytes → ℕ → ℕ → Option ℕ
space_down bytes to zero = none
space_down bytes to (suc i) =
    let rest = space_down bytes to i in
    if is_among is_gap (get_elem? bytes i)
    then some (suc i)
    else if ltb 200 (to - i)
    then none
    else rest

unfoldable pub find_space : Bytes → ℕ → Option ℕ
unfolding space_down
find_space bytes to = let to' = min to (length bytes) in space_down bytes to' to'

abbrev or_at : ℕ → Option ℕ → ℕ
or_at i none = i
or_at i (some j) = j

abbrev or_space : Bytes → ℕ → Option ℕ → ℕ
unfolding find_space
or_space bytes end_ none = or_at end_ (find_space bytes end_)
or_space bytes end_ (some boundary) = boundary

-- The test of the walks to a boundary.
pub goes_on : Bytes → ℕ → Bool
unfolding is_char_boundary
goes_on bytes i = ltb i (length bytes) && not (is_char_boundary bytes i)

-- Up to the next boundary, with one unit of fuel for each byte that is left.
pub up_to_boundary : Bytes → ℕ → ℕ → ℕ
unfolding goes_on
up_to_boundary bytes zero i = i
up_to_boundary bytes (suc fuel) i =
    let next = up_to_boundary bytes fuel (i + 1) in if goes_on bytes i then next else i

unfoldable pub to_boundary : Bytes → ℕ → ℕ
unfolding up_to_boundary
to_boundary bytes i = up_to_boundary bytes (length bytes - i) i

-- Where the piece that starts at `start` is cut, before it is moved to a boundary.
unfoldable pub cut_at : Bytes → ℕ → ℕ → ℕ
unfolding find_sentence_end or_space
cut_at bytes target start =
    let end_ = min (start + target) (length bytes) in
    if ltb end_ (length bytes)
    then or_space bytes end_ (find_sentence_end bytes (max (end_ - 200) (start + target / 2)) end_)
    else end_

unfoldable pub piece_end : Bytes → ℕ → ℕ → ℕ
unfolding to_boundary cut_at
piece_end bytes target start = to_boundary bytes (cut_at bytes target start)

unfoldable pub next_start : Bytes → ℕ → ℕ → ℕ → ℕ
unfolding to_boundary
next_start bytes overlap start end_ = to_boundary bytes (start + max (end_ - start - overlap) 1)

-- The pieces as ranges of bytes.
pub data Pieces : Type 0 where
  cut : List (ℕ × ℕ) → Pieces
  panicked out_of_fuel : Pieces

abbrev add_piece : ℕ → ℕ → Pieces → Pieces
add_piece start end_ (cut rs) = cut ((start, end_) ∷ rs)
add_piece start end_ panicked = panicked
add_piece start end_ out_of_fuel = out_of_fuel

-- The loop, with one unit of fuel for each byte that is left.
unfoldable pub split_from : Bytes → ℕ → ℕ → ℕ → ℕ → Pieces
unfolding piece_end next_start
split_from bytes target overlap zero start =
    if ltb start (length bytes) then out_of_fuel else cut []
split_from bytes target overlap (suc fuel) start =
    let end_ = piece_end bytes target start in
    let rest = split_from bytes target overlap fuel (next_start bytes overlap start end_) in
    if ltb start (length bytes)
    then (if ltb end_ start
        then panicked
        else if leb (length bytes) end_
        then cut ((start, end_) ∷ [])
        else add_piece start end_ rest)
    else cut []

unfoldable pub split_ranges : Bytes → ℕ → ℕ → Pieces
unfolding split_from
split_ranges bytes target overlap = split_from bytes target overlap (length bytes) 0

module _ (trim : Bytes → Bytes) where
  pieces_of : Bytes → List (ℕ × ℕ) → List Bytes
  pieces_of bytes [] = []
  pieces_of bytes ((start, end_) ∷ rs) =
      let piece = trim (take (end_ - start) (drop start bytes)) in
      let rest = pieces_of bytes rs in if is_empty piece then rest else piece ∷ rest

  -- The texts of the pieces; none is a panic, or that the fuel was too little.
  abbrev texts_of : Bytes → Pieces → Option (List Bytes)
  unfolding pieces_of
  texts_of bytes (cut rs) = some (pieces_of bytes rs)
  texts_of bytes panicked = none
  texts_of bytes out_of_fuel = none

  unfoldable pub split_text : Bytes → ℕ → ℕ → Option (List Bytes)
  unfolding split_ranges texts_of
  split_text bytes target overlap = texts_of bytes (split_ranges bytes target overlap)
