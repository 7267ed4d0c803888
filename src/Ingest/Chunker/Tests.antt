-- ===== src/Ingest/Chunker/Tests.antt =====
-- The chunker on concrete texts.
use oracle_automate.Prelude.{◌≡◌, refl, some, List, [], ◌∷◌, nat_eq, if◌then◌else◌}
use oracle_automate.Text.{codes}
use oracle_automate.Ingest.Chunker.{
  Bytes, is_char_boundary, find_sentence_end, find_space, to_boundary, cut_at, piece_end,
  next_start, cut, panicked, split_from, split_ranges, split_text, pieces_of,
}

-- A text of code points below 128 is its own list of bytes.
abbrev two_sentences : Bytes
two_sentences = codes "One two. Three four"

sentences_are_kept : split_ranges two_sentences 12 0 ≡ cut ((0, 9) ∷ (9, 19) ∷ [])
unfolding split_ranges split_from piece_end next_start to_boundary cut_at find_sentence_end
    find_space is_char_boundary codes
sentences_are_kept = refl

-- A space before the start of the piece is taken as its end.
short_target_panics : split_ranges (codes "a xxxxxxxxxxxxxxxxxxxx") 10 0 ≡ panicked
unfolding split_ranges split_from piece_end next_start to_boundary cut_at find_sentence_end
    find_space is_char_boundary codes
short_target_panics = refl

-- A `trim` of the spaces in front.
abbrev trim : Bytes → Bytes
trim [] = []
trim (c ∷ cs) = let rest = trim cs in if nat_eq c 32 then rest else c ∷ cs

abbrev AreSpaces : Bytes → Type 0
AreSpaces [] = Unit
AreSpaces (c ∷ cs) = (c ≡ 32) × AreSpaces cs

both_are_emitted :
    split_text trim two_sentences 12 0 ≡ some (codes "One two. " ∷ codes "Three four" ∷ [])
unfolding split_text pieces_of split_ranges split_from piece_end next_start to_boundary cut_at
    find_sentence_end find_space is_char_boundary codes
both_are_emitted = refl
