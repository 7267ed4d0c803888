-- ===== src/Erp/Message.antt =====
-- crates/oracle-automate-erp/src/erp_result.rs: the FND return stack found in a response. A `char` is
-- its code point.
use Prim.Native.Char.{code}
use oracle_automate.Prelude.{
  ℕ, ◌+◌, String, Bool, true, false, ◌&&◌, ◌||◌, Option, none, some, List, [], ◌∷◌, ◌++◌, ltb,
  nat_eq, if◌then◌else◌,
}
use oracle_automate.Text.{Signed, parse_i32, to_ascii_uppercase}
use oracle_automate.Json.{
  Json, num, str, arr, obj, Items, nil, cons, Fields, end, field, get_field, is_some,
}

pub data ErpSeverity : Type 0 where
  success error warning info abort : ErpSeverity
  unknown : ℕ → ErpSeverity

unfoldable pub from_char : ℕ → ErpSeverity
unfolding to_ascii_uppercase
from_char c =
    let u = to_ascii_uppercase c in
    if nat_eq u b'S'
    then success
    else if nat_eq u b'E'
    then error
    else if nat_eq u b'W'
    then warning
    else if nat_eq u b'I'
    then info
    else if nat_eq u b'A'
    then abort
    else unknown u

-- `ErpSeverity::is_failure`
unfoldable pub is_failure : ErpSeverity → Bool
is_failure error = true
is_failure abort = true
is_failure (unknown c) = true
is_failure _ = false

pub record ErpMessage : Type 0 where
  pub severity : ErpSeverity
  pub message_class : String
  pub message_number : String
  pub text : String
  pub parameter : Option String
  pub row : Option Signed
  pub field_name : Option String
  pub system : Option String

text_of : Option Json → Option String
text_of (some (str s)) = some s
text_of (some (num s)) = some s
text_of _ = none

-- The first of the keys that holds a text or a number.
unfoldable pub first_str : Fields → List String → Option String
unfolding text_of
first_str m [] = none
first_str m (k ∷ ks) =
    let rest = first_str m ks in elim (text_of (get_field k m)) [ some s ↦ some s | none ↦ rest ]

abbrev or_empty : Option String → String
or_empty none = ""
or_empty (some s) = s

severity_of : String → ErpSeverity
severity_of String.[] = unknown b' '
severity_of (String.◌∷◌ c s) = from_char (code c)

abbrev parse_row : Option String → Option Signed
parse_row none = none
parse_row (some s) = parse_i32 s

-- `parse_one` on the object that is a candidate.
unfoldable pub parse_one : Fields → ErpMessage
unfolding severity_of first_str parse_i32
parse_one m = record {
  severity = severity_of (or_empty (first_str m ("TYPE" ∷ "type" ∷ [])));
  message_class = or_empty (first_str m ("ID" ∷ "id" ∷ []));
  message_number = or_empty (first_str m ("NUMBER" ∷ "number" ∷ []));
  text = or_empty (first_str m ("MESSAGE" ∷ "message" ∷ []));
  parameter = first_str m ("PARAMETER" ∷ "parameter" ∷ []);
  row = parse_row (first_str m ("ROW" ∷ "row" ∷ []));
  field_name = first_str m ("FIELD" ∷ "field" ∷ []);
  system = first_str m ("SYSTEM" ∷ "system" ∷ []);
}

abbrev pub contains_key : String → Fields → Bool
contains_key k m = is_some (get_field k m)

-- The test of `walk` on an object: a row of the return stack.
unfoldable pub is_row : Fields → Bool
is_row m =
    (contains_key "TYPE" m || contains_key "type" m)
    && (contains_key "MESSAGE" m || contains_key "message" m)

-- `walk`: the rows down to depth 8, none of them inside another. What it pushes is the result.
unfoldable mutual
  pub walk : Json → ℕ → List Fields
  walk (obj m) depth =
      let inner = walk_fields m (depth + 1) in
      if ltb 8 depth then [] else if is_row m then m ∷ [] else inner
  walk (arr vs) depth = let inner = walk_items vs (depth + 1) in if ltb 8 depth then [] else inner
  walk _ depth = []

  pub walk_items : Items → ℕ → List Fields
  walk_items nil depth = []
  walk_items (cons v vs) depth = walk v depth ++ walk_items vs depth

  pub walk_fields : Fields → ℕ → List Fields
  walk_fields end depth = []
  walk_fields (field k v fs) depth = walk v depth ++ walk_fields fs depth

abbrev parse_each : List Fields → List ErpMessage
parse_each [] = []
parse_each (m ∷ ms) = parse_one m ∷ parse_each ms

unfoldable pub parse_erp_messages : Json → List ErpMessage
unfolding walk walk_items walk_fields is_row parse_one get_field from_char
parse_erp_messages v = parse_each (walk v 0)

-- `has_failure` of transaction.rs
unfoldable pub has_failure : List ErpMessage → Bool
unfolding is_failure
has_failure [] = false
has_failure (m ∷ ms) = is_failure m.severity || has_failure ms
