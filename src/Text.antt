-- ===== src/Text.antt =====
-- What the source uses of Rust's texts: concatenation, decimal printing of unsigned numbers, the
-- code points of a text, and `i32::from_str`.
pub mod Codes
use Prim.Native.Char.{code}
use Prim.Native.String.{String, ◌++◌ as append}
use oracle_automate.Prelude.{
  ℕ, zero, suc, ◌+◌, ◌-◌, ◌*◌, ◌/◌, ◌%◌, ◌^◌, Bool, true, false, ◌&&◌, Option, none, some, List, [],
  ◌∷◌, ltb, leb, nat_eq, if◌then◌else◌,
}

infixr 66 ◌<>◌
abbrev pub ◌<>◌ : String → String → String
s <> t = append s t

digit : ℕ → String
digit zero = "0"
digit (suc zero) = "1"
digit (suc (suc zero)) = "2"
digit (suc (suc (suc zero))) = "3"
digit (suc (suc (suc (suc zero)))) = "4"
digit (suc (suc (suc (suc (suc zero))))) = "5"
digit (suc (suc (suc (suc (suc (suc zero)))))) = "6"
digit (suc (suc (suc (suc (suc (suc (suc zero))))))) = "7"
digit (suc (suc (suc (suc (suc (suc (suc (suc zero)))))))) = "8"
digit _ = "9"

-- One unit of fuel for each digit.
decimal_within : ℕ → ℕ → String
decimal_within zero n = ""
decimal_within (suc fuel) n =
    let rest = decimal_within fuel (n / 10) in if ltb n 10 then digit n else rest <> digit (n % 10)

-- `format!("{n}")`; a number has at most as many digits as it counts, and one more.
unfoldable pub decimal : ℕ → String
unfolding decimal_within digit
decimal n = decimal_within (n + 1) n

unfoldable pub codes : String → List ℕ
codes String.[] = []
codes (String.◌∷◌ c s) = code c ∷ codes s

-- An i32 by its sign and its magnitude; zero has no sign.
pub record Signed : Type 0 where
  pub negative : Bool
  pub magnitude : ℕ

parse_digits : ℕ → List ℕ → Option ℕ
parse_digits n [] = some n
parse_digits n (c ∷ cs) =
    let rest = parse_digits (n * 10 + (c - b'0')) cs in
    if leb b'0' c && leb c b'9' then rest else none

in_i32 : Bool → Option ℕ → Option Signed
in_i32 sign none = none
in_i32 true (some n) =
    if leb n (2 ^ 31) then some (record { negative = ltb 0 n; magnitude = n }) else none
in_i32 false (some n) =
    if ltb n (2 ^ 31) then some (record { negative = false; magnitude = n }) else none

digits_from : Bool → List ℕ → Option Signed
unfolding parse_digits in_i32
digits_from sign [] = none
digits_from sign (c ∷ cs) = in_i32 sign (parse_digits 0 (c ∷ cs))

parse_signed : List ℕ → Option Signed
unfolding digits_from
parse_signed [] = none
parse_signed (c ∷ cs) =
    if nat_eq c b'-'
    then digits_from true cs
    else if nat_eq c b'+'
    then digits_from false cs
    else digits_from false (c ∷ cs)

-- `s.parse::<i32>().ok()`
unfoldable pub parse_i32 : String → Option Signed
unfolding parse_signed codes
parse_i32 s = parse_signed (codes s)

-- `char::to_ascii_uppercase` on a code point.
unfoldable pub to_ascii_uppercase : ℕ → ℕ
to_ascii_uppercase c = if leb b'a' c && leb c b'z' then c - 32 else c
