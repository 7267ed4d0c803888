-- ===== src/Erp/Mock/Table.antt =====
-- crates/oracle-automate-erp/src/client.rs, `MockErpClient::read_table`. `upper`, `lower` and
-- `to_string` are `to_uppercase`, `to_lowercase` and the printing of a JSON value. The order of the
-- entries of a row is not modelled.
use oracle_automate.Prelude.{
  ℕ, ◌+◌, String, Bool, true, false, not, ◌&&◌, ◌||◌, Option, none, some, List, [], ◌∷◌, ◌++◌, map,
  str_eq, string_Eq, nat_eq, ltb, leb, if◌then◌else◌,
}
pub mod Rows
pub mod Scope
use oracle_automate.Prelude.Map.{Map, get, insert}
use oracle_automate.Text.{◌<>◌, codes}
use oracle_automate.Text.Codes.{Codes}
use oracle_automate.Json.{Json, str, get_key}
use oracle_automate.Erp.Error.{ErpError, ErpResult, ok, err}
use oracle_automate.Erp.Mock.Clause.{
  Operator, equals, like, Condition, Outcome, then_outcome, eq_ignore_ascii_case, parse_conditions,
  sql_like,
}

pub record TableField : Type 0 where
  pub name : String
  pub data_element : String
  pub type_token : String
  pub length : ℕ
  pub description : Option String
  pub key : Bool

pub record TableStructure : Type 0 where
  pub table : String
  pub description : String
  pub fields : List TableField
  pub key_fields : List String
  pub authorization_group : String
  pub storage_note : Option String

pub record ReadTableRequest : Type 0 where
  pub table : String
  pub fields : List String
  pub where_conditions : List String
  pub max_rows : ℕ

abbrev pub Row : Type 0
Row = Map String Json

pub record MockTable : Type 0 where
  pub structure : TableStructure
  pub rows : List Row

abbrev pub max_rows_hard_cap : ℕ
max_rows_hard_cap = 1000

-- The first entry under a name, whatever its case.
unfoldable pub find_field : Codes → Row → Option (String × Json)
find_field name [] = none
find_field name ((k, v) ∷ row) =
    let rest = find_field name row in
    if eq_ignore_ascii_case (codes k) name then some (k, v) else rest

abbrev add_entry : Option (String × Json) → Row → Row
unfolding insert
add_entry none row = row
add_entry (some (k, v)) row = insert k v row

-- The entries are inserted one after the other.
unfoldable pub project : List String → Row → Row → Row
unfolding add_entry find_field
project [] row out = out
project (f ∷ fs) row out = project fs row (add_entry (find_field (codes f) row) out)

unfoldable pub has_field : String → List TableField → Bool
has_field name [] = false
has_field name (f ∷ fs) = eq_ignore_ascii_case (codes f.name) (codes name) || has_field name fs

check_fields : List TableField → List String → ErpResult {0} Unit
unfolding has_field
check_fields fields [] = ok tt
check_fields fields (f ∷ fs) =
    let rest = check_fields fields fs in
    if has_field f fields
    then rest
    else err (ErpError.invalid_parameter "fields" ("unknown field '" <> f <> "'"))

checked_fields : List String → ErpResult {0} Unit → ErpResult (List String)
checked_fields fields (err e) = err e
checked_fields fields (ok u) = ok fields

unfoldable pub projection_of : List TableField → List String → ErpResult (List String)
unfolding check_fields checked_fields
projection_of fields [] = ok (map (λ f. f.name) fields)
projection_of fields (f ∷ fs) = checked_fields (f ∷ fs) (check_fields fields (f ∷ fs))

-- The field that holds the connection's client, if the table starts with it.
unfoldable pub client_field : List TableField → Option String
client_field [] = none
client_field (f ∷ fs) =
    if (str_eq f.name "the ledger/BU scope" || str_eq f.name "RCLNT") && str_eq f.type_token "CLNT"
    then some f.name
    else none

unfoldable pub mentions : Codes → List Condition → Bool
mentions field [] = false
mentions field (c ∷ cs) = eq_ignore_ascii_case c.field field || mentions field cs

abbrev string_or : String → Option Json → String
string_or fallback (some (str s)) = s
string_or fallback other = fallback

-- The client number of the connection.
unfoldable pub client_of : Json → String
unfolding get_key
client_of identity = string_or "100" (get_key "client" identity)

unfoldable pub scoped : Json → Option String → List Condition → List Condition
unfolding mentions
scoped identity none cs = cs
scoped identity (some field) cs =
    if mentions (codes field) cs
    then cs
    else cs
      ++ record { field = codes field; operator = equals; value = codes (client_of identity) } ∷ []

module _ (to_string : Json → String) (lower : Codes → Codes) where
  abbrev text_of : Option (String × Json) → Codes
  unfolding codes
  text_of none = []
  text_of (some (k, str s)) = codes s
  text_of (some (k, other)) = codes (to_string other)

  unfoldable pub actual : Codes → Row → Codes
  unfolding find_field text_of
  actual field row = text_of (find_field field row)

  unfoldable pub match_row : Row → Condition → Bool
  unfolding actual
  match_row row c = elim c.operator [
    | equals ↦ eq_ignore_ascii_case (actual c.field row) c.value
    | like ↦ sql_like lower (actual c.field row) c.value
  ]

  unfoldable pub match_all : Row → List Condition → Bool
  unfolding match_row
  match_all row [] = true
  match_all row (c ∷ cs) = match_row row c && match_all row cs

  -- The loop over the rows, with `n` rows found.
  unfoldable pub collect_rows : ℕ → List String → List Condition → ℕ → List Row → List Row
  unfolding match_all project
  collect_rows max_rows fields cs n [] = []
  collect_rows max_rows fields cs n (row ∷ rows) =
      let skipped = collect_rows max_rows fields cs n rows in
      let more = collect_rows max_rows fields cs (n + 1) rows in
      if match_all row cs
      then project fields row [] ∷ (if leb max_rows (n + 1) then [] else more)
      else skipped

  unfoldable pub rows_of :
      Json → MockTable → ReadTableRequest → List String → List Condition → Outcome (List Row)
  unfolding collect_rows scoped client_field
  rows_of identity t request fields cs = some (
      ok (
        collect_rows request.max_rows fields (scoped identity (client_field t.structure.fields) cs)
          0 t.rows))

  module _ (upper : Codes → Codes) where
    abbrev read_found : Json → ReadTableRequest → Option MockTable → Outcome (List Row)
    unfolding rows_of projection_of parse_conditions
    read_found identity request none = some (err (ErpError.not_found request.table))
    read_found identity request (some t) =
        then_outcome (some (projection_of t.structure.fields request.fields)) (λ fields.
          then_outcome (parse_conditions upper request.where_conditions)
            (λ cs. rows_of identity t request fields cs))

    unfoldable pub read_table : Map String MockTable → Json → ReadTableRequest → Outcome (List Row)
    unfolding read_found get
    read_table db identity request =
        if nat_eq request.max_rows 0
        then some (err (ErpError.invalid_parameter "max_rows" "must be >= 1"))
        else if ltb max_rows_hard_cap request.max_rows
        then some (err (ErpError.table_buffer_overflow request.table request.max_rows))
        else read_found identity request (get request.table db)

abbrev structure_or : String → Option MockTable → ErpResult TableStructure
structure_or table none = err (ErpError.not_found table)
structure_or table (some t) = ok t.structure

unfoldable pub table_structure : Map String MockTable → String → ErpResult TableStructure
unfolding get
table_structure db table = structure_or table (get table db)
