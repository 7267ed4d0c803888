-- ===== src/Ingest/Chunker/Texts.antt =====
-- crates/oracle-automate-ingest/src/chunker.rs, `split_text`: what the emitted texts keep. A blank
-- text is one of white space, which `str::trim` takes off at both ends.
use oracle_automate.Prelude.{ℕ, ◌+◌, ◌≤◌, ◌<◌, ◌≡◌, ◌⊎◌, List, [], ◌∷◌, ◌++◌, length, if◌then◌else◌}
use oracle_automate.Text.Codes.{is_empty}
use oracle_automate.Ingest.Chunker.{Bytes}

-- The byte at `i` lies in a part of the text.
abbrev pub IsIn : Bytes → Bytes → ℕ → Type 0
IsIn bytes part i =
    (before after : Bytes) × (bytes ≡ before ++ part ++ after)
    × (length before ≤ i)
    × (i < length before + length part)

abbrev pub IsOneOf : Bytes → List Bytes → Type 0
IsOneOf part [] = ⊥
IsOneOf part (p ∷ ps) = (part ≡ p) ⊎ IsOneOf part ps

-- Every text is a part of the whole, and not empty.
abbrev pub AreParts : Bytes → List Bytes → Type 0
AreParts bytes [] = Unit
AreParts bytes (p ∷ ps) =
    ((before after : Bytes) × (bytes ≡ before ++ p ++ after)) × (0 < length p) × AreParts bytes ps

module _ (trim : Bytes → Bytes) (Blank : Bytes → Type 0) where
  -- `trim` takes a blank text off at each end.
  abbrev pub IsTrimming : Type 0
  IsTrimming = (s : Bytes) → (l r : Bytes) × (s ≡ l ++ trim s ++ r) × Blank l × Blank r

  -- The byte at `i` lies in one of the texts, or in a blank part.
  abbrev pub IsKept : Bytes → List Bytes → ℕ → Type 0
  IsKept bytes pieces i = (part : Bytes) × IsIn bytes part i × (Blank part ⊎ IsOneOf part pieces)

  abbrev added : Bytes → List Bytes → List Bytes
  added piece rest = if is_empty piece then rest else piece ∷ rest
