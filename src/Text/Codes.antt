-- ===== src/Text/Codes.antt =====
-- What the source uses of Rust's `str` where it looks inside a text: a text is the list of its code
-- points, and `len` is its number of bytes in UTF-8.
use oracle_automate.Prelude.{
  ℕ, zero, suc, ◌+◌, ◌-◌, ◌≡◌, ◌↔◌, Bool, true, false, ◌&&◌, ◌||◌, Option, none, some, List, [],
  ◌∷◌, reverse, ltb, leb, nat_eq, nat_eq_iff, Eq, if◌then◌else◌, arith,
}

abbrev pub Codes : Type 0
Codes = List ℕ

abbrev pub codes_eq : Codes → Codes → Bool
codes_eq [] [] = true
codes_eq [] (d ∷ ds) = false
codes_eq (c ∷ cs) [] = false
codes_eq (c ∷ cs) (d ∷ ds) = nat_eq c d && codes_eq cs ds

pub codes_eq_iff : (a b : Codes) → (codes_eq a b ≡ true) ↔ (a ≡ b)
codes_eq_iff [] [] = ground arith
codes_eq_iff [] (d ∷ ds) = ground arith
codes_eq_iff (c ∷ cs) [] = ground arith
codes_eq_iff (c ∷ cs) (d ∷ ds) = ground (arith, nat_eq_iff c d, codes_eq_iff cs ds)

instance abbrev pub codes_Eq : Eq Codes
codes_Eq = record { beq = codes_eq; beq_iff = codes_eq_iff }

-- `starts_with`: the second text starts with the first.
abbrev pub is_prefix : Codes → Codes → Bool
is_prefix [] t = true
is_prefix (c ∷ cs) [] = false
is_prefix (c ∷ cs) (d ∷ ds) = nat_eq c d && is_prefix cs ds

abbrev pub utf8_size : ℕ → ℕ
utf8_size c = if ltb c 128 then 1 else if ltb c 2048 then 2 else if ltb c 65536 then 3 else 4

-- `str::len`
abbrev pub byte_length : Codes → ℕ
byte_length [] = 0
byte_length (c ∷ cs) = utf8_size c + byte_length cs

-- A text from a byte on, if a code point starts there or the text ends there.
unfoldable pub skip_bytes : ℕ → Codes → Option Codes
skip_bytes zero cs = some cs
skip_bytes (suc k) [] = none
skip_bytes (suc k) (c ∷ cs) =
    let rest = skip_bytes (suc k - utf8_size c) cs in
    if leb (utf8_size c) (suc k) then rest else none

abbrev pub starting : ℕ → Option Codes → Option Codes
starting c none = none
starting c (some cs) = some (c ∷ cs)

unfoldable pub take_bytes : ℕ → Codes → Option Codes
take_bytes zero cs = some []
take_bytes (suc k) [] = none
take_bytes (suc k) (c ∷ cs) =
    let rest = take_bytes (suc k - utf8_size c) cs in
    if leb (utf8_size c) (suc k) then starting c rest else none

abbrev pub is_empty : Codes → Bool
is_empty [] = true
is_empty (c ∷ cs) = false

-- The code points with the property White_Space.
abbrev pub is_whitespace : ℕ → Bool
is_whitespace c =
    (leb 9 c && leb c 13)
    || nat_eq c 32
    || nat_eq c 133
    || nat_eq c 160
    || nat_eq c 5760
    || (leb 8192 c && leb c 8202)
    || nat_eq c 8232
    || nat_eq c 8233
    || nat_eq c 8239
    || nat_eq c 8287
    || nat_eq c 12288

unfoldable pub trim_start : Codes → Codes
trim_start [] = []
trim_start (c ∷ cs) = let rest = trim_start cs in if is_whitespace c then rest else c ∷ cs

unfoldable pub trim : Codes → Codes
unfolding trim_start
trim cs = reverse (trim_start (reverse (trim_start cs)))

unfoldable pub to_ascii_lowercase : Codes → Codes
to_ascii_lowercase [] = []
to_ascii_lowercase (c ∷ cs) =
    (if leb b'A' c && leb c b'Z' then c + 32 else c) ∷ to_ascii_lowercase cs

-- The part before the first occurrence of a code point; all of it if there is none.
unfoldable pub before : ℕ → Codes → Codes
before d [] = []
before d (c ∷ cs) = let rest = before d cs in if nat_eq c d then [] else c ∷ rest

abbrev add_front : ℕ → Option (Codes × Codes) → Option (Codes × Codes)
add_front c none = none
add_front c (some (k, v)) = some (c ∷ k, v)

-- `split_once`
unfoldable pub split_once : ℕ → Codes → Option (Codes × Codes)
split_once d [] = none
split_once d (c ∷ cs) =
    let rest = split_once d cs in if nat_eq c d then some ([], cs) else add_front c rest

abbrev pub add_to_first : ℕ → List Codes → List Codes
add_to_first c [] = (c ∷ []) ∷ []
add_to_first c (l ∷ ls) = (c ∷ l) ∷ ls

split_newlines : Codes → List Codes
split_newlines [] = [] ∷ []
split_newlines (c ∷ cs) =
    let rest = split_newlines cs in if nat_eq c 10 then [] ∷ rest else add_to_first c rest

without_return : Codes → Codes
without_return [] = []
without_return (c ∷ []) = if nat_eq c 13 then [] else c ∷ []
without_return (c ∷ (d ∷ cs)) = c ∷ without_return (d ∷ cs)

-- A line that ends in a newline loses the carriage return before it; an empty last line is none.
close_lines : List Codes → List Codes
unfolding without_return
close_lines [] = []
close_lines ([] ∷ []) = []
close_lines ((c ∷ cs) ∷ []) = (c ∷ cs) ∷ []
close_lines (l ∷ (k ∷ ls)) = without_return l ∷ close_lines (k ∷ ls)

-- `str::lines`
unfoldable pub lines : Codes → List Codes
unfolding split_newlines close_lines
lines cs = close_lines (split_newlines cs)
