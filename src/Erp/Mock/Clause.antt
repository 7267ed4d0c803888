-- ===== src/Erp/Mock/Clause.antt =====
-- crates/oracle-automate-erp/src/client.rs, `parse_conditions` and `sql_like`: the conditions of a
-- table read. `upper` and `lower` are `to_uppercase` and `to_lowercase`.
use oracle_automate.Prelude.{
  ℕ, ◌+◌, String, Bool, false, not, ◌&&◌, ◌||◌, Option, none, some, List, [], ◌∷◌, ◌++◌, drop,
  length, reverse, nat_eq, keep_if, if◌then◌else◌,
}
use oracle_automate.Text.{◌<>◌, codes}
use oracle_automate.Text.Codes.{
  Codes, codes_eq, is_prefix, trim, take_bytes, skip_bytes, to_ascii_lowercase, utf8_size,
}
use oracle_automate.Erp.Error.{ErpError, ErpResult, ok, err}

-- `eq_ignore_ascii_case`
unfoldable pub eq_ignore_ascii_case : Codes → Codes → Bool
unfolding to_ascii_lowercase
eq_ignore_ascii_case a b = codes_eq (to_ascii_lowercase a) (to_ascii_lowercase b)

pub data Operator : Type 0 where
  equals like : Operator

pub record Condition : Type 0 where
  pub field : Codes
  pub operator : Operator
  pub value : Codes

-- A slice at an offset inside a code point panics.
pub data Clause : Type 0 where
  clause : Condition → Clause
  unsupported bad_slice : Clause

abbrev further : ℕ → Option ℕ → Option ℕ
further n none = none
further n (some i) = some (n + i)

-- `find`: the offset in bytes of the first occurrence.
unfoldable pub find_bytes : Codes → Codes → Option ℕ
find_bytes needle [] = none
find_bytes needle (c ∷ cs) =
    let rest = find_bytes needle cs in
    if is_prefix needle (c ∷ cs) then some 0 else further (utf8_size c) rest

strip_quotes : Codes → Codes
strip_quotes [] = []
strip_quotes (c ∷ cs) = let rest = strip_quotes cs in if nat_eq c 39 then rest else c ∷ cs

-- `trim_matches('\'')`
trim_quotes : Codes → Codes
unfolding strip_quotes
trim_quotes cs = reverse (strip_quotes (reverse (strip_quotes cs)))

value_part : Codes → Operator → Option Codes → Clause
unfolding trim_quotes
value_part name op none = bad_slice
value_part name op (some rest) =
    clause (record { field = trim name; operator = op; value = trim_quotes (trim rest) })

name_part : ℕ → Operator → Codes → Option Codes → Clause
unfolding value_part
name_part after op text none = bad_slice
name_part after op text (some name) = value_part name op (skip_bytes after text)

-- The clause that is cut at the offset `i` of an operator of `n` bytes.
cut : ℕ → ℕ → Operator → Codes → Clause
unfolding name_part
cut i n op text = name_part (i + n) op text (take_bytes i text)

like_word : Codes
like_word = b' ' ∷ b'L' ∷ b'I' ∷ b'K' ∷ b'E' ∷ b' ' ∷ []

at_equals : Codes → Option ℕ → Clause
unfolding cut
at_equals text none = unsupported
at_equals text (some i) = cut i 1 equals text

at_like : Codes → Option ℕ → Clause
unfolding cut at_equals
at_like text none = at_equals text (find_bytes (b'=' ∷ []) text)
at_like text (some i) = cut i 6 like text

-- A panic is `none`.
abbrev pub Outcome {ℓ} : Type ℓ → Type ℓ
Outcome A = Option (ErpResult A)

abbrev pub then_outcome {ℓ κ} : {A : Type ℓ} {B : Type κ} → Outcome A → (A → Outcome B) → Outcome B
then_outcome none k = none
then_outcome (some (err e)) k = some (err e)
then_outcome (some (ok a)) k = k a

unsupported_clause : String → ErpError
unsupported_clause s =
    ErpError.invalid_parameter "where_conditions"
      ("unsupported clause '" <> s <> "' (expected FIELD = 'value' or FIELD LIKE 'pattern')")

condition_of : String → Clause → Outcome Condition
unfolding unsupported_clause
condition_of s (clause c) = some (ok c)
condition_of s unsupported = some (err (unsupported_clause s))
condition_of s bad_slice = none

module _ (upper : Codes → Codes) where
  unfoldable pub parse_clause : Codes → Clause
  unfolding at_like find_bytes like_word
  parse_clause text = at_like text (find_bytes like_word (upper text))

  unfoldable pub parse_conditions : List String → Outcome (List Condition)
  unfolding condition_of parse_clause
  parse_conditions [] = some (ok [])
  parse_conditions (s ∷ ss) =
      let rest = parse_conditions ss in
      then_outcome (condition_of s (parse_clause (trim (codes s))))
        (λ c. then_outcome rest (λ cs. some (ok (c ∷ cs))))

-- The code points that the pattern's translation escapes with a backslash.
abbrev is_special : ℕ → Bool
is_special c =
    nat_eq c b'\\'
    || nat_eq c b'.'
    || nat_eq c b'+'
    || nat_eq c b'?'
    || nat_eq c b'^'
    || nat_eq c b'$'
    || nat_eq c b'{'
    || nat_eq c b'}'
    || nat_eq c b'('
    || nat_eq c b')'
    || nat_eq c b'|'
    || nat_eq c b'['
    || nat_eq c b']'

translated : ℕ → Codes
translated c =
    if nat_eq c b'%'
    then b'.' ∷ b'*' ∷ []
    else if nat_eq c b'_'
    then b'.' ∷ []
    else if is_special c
    then b'\\' ∷ c ∷ []
    else c ∷ []

translate : Codes → Codes
unfolding translated
translate [] = []
translate (c ∷ cs) = translated c ++ translate cs

abbrev is_kept : ℕ → Bool
is_kept c = not (nat_eq c b'^' || nat_eq c b'$' || nat_eq c b'\\')

-- The translation between `^` and `$`, without those and the backslashes.
stripped : Codes → Codes
unfolding translate
stripped p = keep_if is_kept (b'^' ∷ (translate p ++ b'$' ∷ []))

unfoldable pub has : ℕ → Codes → Bool
has c [] = false
has c (d ∷ ds) = nat_eq c d || has c ds

unfoldable pub contains : Codes → Codes → Bool
contains needle [] = is_prefix needle []
contains needle (c ∷ cs) = is_prefix needle (c ∷ cs) || contains needle cs

any_run : Codes
any_run = b'.' ∷ b'*' ∷ []

strip_prefix : Codes → Codes → Option Codes
strip_prefix p t = if is_prefix p t then some (drop (length p) t) else none

strip_suffix : Codes → Codes → Option Codes
unfolding strip_prefix
strip_suffix p t = elim (strip_prefix (reverse p) (reverse t)) [
  | none ↦ none
  | some r ↦ some (reverse r)
]

without_suffix : Codes → Codes
unfolding strip_suffix any_run
without_suffix t = elim (strip_suffix any_run t) [ none ↦ t | some r ↦ r ]

matches_prefix : Codes → Codes → Option Codes → Bool
matches_prefix h text none = codes_eq h text
matches_prefix h text (some prefix) = is_prefix prefix h

matches_stripped : Codes → Codes → Option Codes → Bool
unfolding without_suffix matches_prefix contains any_run
matches_stripped h text (some rest) = contains (without_suffix rest) h
matches_stripped h text none = matches_prefix h text (strip_suffix any_run text)

module _ (lower : Codes → Codes) where
  unfoldable pub sql_like : Codes → Codes → Bool
  unfolding has stripped matches_stripped strip_prefix any_run
  sql_like haystack pattern =
      let h = lower haystack in
      let p = lower pattern in
      if not (has b'%' p) && not (has b'_' p)
      then codes_eq h p
      else matches_stripped h (stripped p) (strip_prefix any_run (stripped p))
