-- ===== src/Erp/Mock/Tests.antt =====
-- The mock client on concrete inputs.
use oracle_automate.Prelude.{
  ◌≡◌, refl, true, false, none, some, List, [], ◌∷◌, take, string_Eq, String,
}
use oracle_automate.Prelude.Map.{Map, get, insert}
use oracle_automate.Text.{codes}
use oracle_automate.Text.Codes.{Codes, to_ascii_lowercase, trim, trim_start, take_bytes, skip_bytes}
use oracle_automate.Json.{Json, null, str, obj, Fields, end, field, get_field, get_key}
use oracle_automate.Erp.Error.{ok}
use oracle_automate.Erp.Metadata.{import, ErpOperationMeta}
use oracle_automate.Erp.Mock.{
  Catalogue, ErpCallRequest, is_lacking, check_required, arguments_of, executed, call_operation,
  operation_metadata,
}
use oracle_automate.Erp.Mock.Clause.{
  Condition, equals, parse_conditions, parse_clause, sql_like, eq_ignore_ascii_case, find_bytes,
  contains, has,
}
use oracle_automate.Erp.Mock.Table.{
  TableField, Row, MockTable, ReadTableRequest, read_table, project, projection_of, has_field,
  client_field, mentions, scoped, match_all, match_row, actual, find_field, rows_of, collect_rows,
  client_of,
}
use oracle_automate.Erp.Mock.Guards.{IsAdmitted, call_operation-IsAdmitted}
use oracle_automate.Erp.Mock.Table.Rows.{selected, IsRead, read_table-rows}

-- A JSON value that is no text prints as nothing here, and texts have only lower case.
abbrev printed : Json → String
printed value = ""

abbrev same : Codes → Codes
same text = text

abbrev post : ErpOperationMeta
post = record {
  function = "journal.get";
  description = "";
  function_group = "GL";
  package_name = none;
  parameters =
      record {
        name = "id";
        direction = import;
        type_token = "NUMBER";
        optional = false;
        description = none;
        default_value = none;
      }
      ∷ [];
  deprecated = false;
  read_only = true;
  commit_required = false;
  authorization = [];
  erp_note = none;
}

abbrev functions : Catalogue
functions = ("journal.get", post) ∷ []

abbrev request : ErpCallRequest
request = record {
  function = "journal.get";
  parameters = obj (field "id" (str "7") end);
  require_read_only_safe = true;
}

call_answers :
    call_operation printed functions request true
    ≡ ok (executed "journal.get" (field "id" (str "7") end) post)
unfolding call_operation operation_metadata arguments_of check_required is_lacking get get_field
call_answers = refl

call_operation-IsAdmitted_example :
    (meta : ErpOperationMeta) × (args : Fields) × IsAdmitted printed functions request true meta
      args
    × (executed "journal.get" (field "id" (str "7") end) post ≡ executed "journal.get" args meta)
call_operation-IsAdmitted_example =
    call_operation-IsAdmitted printed functions request true
      (executed "journal.get" (field "id" (str "7") end) post) call_answers

abbrev column : String → String → TableField
column name type_token = record {
  name = name;
  data_element = "";
  type_token = type_token;
  length = 3;
  description = none;
  key = false;
}

abbrev ledger : MockTable
ledger = record {
  structure = record {
    table = "L";
    description = "";
    fields = column "RCLNT" "CLNT" ∷ column "ID" "CHAR" ∷ [];
    key_fields = [];
    authorization_group = "";
    storage_note = none;
  };
  rows =
      (("RCLNT", str "100") ∷ ("ID", str "a") ∷ [])
      ∷ (("RCLNT", str "200") ∷ ("ID", str "a") ∷ [])
      ∷ (("RCLNT", str "100") ∷ ("ID", str "b") ∷ [])
      ∷ [];
}

abbrev db : Map String MockTable
db = ("L", ledger) ∷ []

abbrev select_a : ReadTableRequest
select_a = record {
  table = "L";
  fields = "ID" ∷ [];
  where_conditions = "ID = 'a'" ∷ [];
  max_rows = 10;
}

abbrev is_a : Condition
is_a = record { field = codes "ID"; operator = equals; value = codes "a" }

abbrev row_a : Row
row_a = ("ID", str "a") ∷ []

read_answers : read_table printed same same db null select_a ≡ some (ok (row_a ∷ []))
unfolding read_table rows_of collect_rows match_all match_row actual find_field eq_ignore_ascii_case
    to_ascii_lowercase codes parse_conditions parse_clause find_bytes trim trim_start take_bytes
    skip_bytes projection_of has_field client_field scoped mentions client_of project get insert
    get_key
read_answers = refl

read_table-rows_example :
    (t : MockTable) × (fields : List String) × (cs : List Condition) × IsRead printed same same db
      null select_a t fields cs
    × ((row_a ∷ [])
        ≡ take 10 (
            selected printed same fields (scoped null (client_field t.structure.fields) cs) t.rows))
read_table-rows_example =
    read_table-rows printed same same db null select_a (row_a ∷ []) read_answers

-- A pattern that ends in its literal part also matches longer texts.
suffix_is_found_inside : sql_like same (codes "abcd") (codes "%bc") ≡ true
unfolding sql_like contains has codes
suffix_is_found_inside = refl

-- The wildcard for one character matches none.
underscore_is_literal : sql_like same (codes "abc") (codes "a_c") ≡ false
unfolding sql_like contains has codes
underscore_is_literal = refl
