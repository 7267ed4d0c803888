-- ===== src/Erp/Mock.antt =====
-- crates/oracle-automate-erp/src/client.rs, `MockErpClient`: the catalogue of operations and their
-- execution. `to_string` prints a JSON value; the pool's permit is held for the whole call and only
-- delays it. The entries of a JSON object that is built here stand in the order of the source's code.
pub mod Clause
pub mod Table
pub mod Guards
mod Tests
use oracle_automate.Prelude.{
  String, Bool, true, false, not, ◌&&◌, Option, none, some, List, [], ◌∷◌, string_Eq, if◌then◌else◌,
}
use oracle_automate.Prelude.Map.{Map, get}
use oracle_automate.Text.{◌<>◌}
use oracle_automate.Json.{
  Json, null, bool, num, str, arr, obj, Fields, end, field, get_field, is_some,
}
use oracle_automate.Erp.Error.{ErpError, ErpResult, ok, err}
use oracle_automate.Erp.Metadata.{
  ErpParamDirection, import, export, changing, tables, ErpParameter, ErpOperationMeta, BulkMetadata,
}

-- `timeout_ms` is not read by this client.
pub record ErpCallRequest : Type 0 where
  pub function : String
  pub parameters : Json
  pub require_read_only_safe : Bool

abbrev pub Catalogue : Type 0
Catalogue = Map String ErpOperationMeta

abbrev found_or : String → Option ErpOperationMeta → ErpResult ErpOperationMeta
found_or name none = err (ErpError.not_found name)
found_or name (some meta) = ok meta

unfoldable pub operation_metadata : Catalogue → String → ErpResult ErpOperationMeta
unfolding get
operation_metadata functions function = found_or function (get function functions)

abbrev add_found : String → Option ErpOperationMeta → BulkMetadata → BulkMetadata
add_found f none b = record b { missing = f ∷ b.missing }
add_found f (some meta) b = record b { functions = meta ∷ b.functions }

unfoldable pub bulk_operation_metadata : Catalogue → List String → String → BulkMetadata
unfolding get
bulk_operation_metadata functions [] language = record {
  language = language;
  functions = [];
  missing = [];
}
bulk_operation_metadata functions (f ∷ fs) language =
    add_found f (get f functions) (bulk_operation_metadata functions fs language)

abbrev pub is_import : ErpParamDirection → Bool
is_import import = true
is_import _ = false

abbrev pub is_export : ErpParamDirection → Bool
is_export export = true
is_export _ = false

-- A required import parameter that the arguments lack.
unfoldable pub is_lacking : Fields → ErpParameter → Bool
unfolding get_field
is_lacking args p = is_import p.direction && not p.optional && not (is_some (get_field p.name args))

unfoldable pub check_required : Fields → List ErpParameter → ErpResult {0} Unit
unfolding is_lacking
check_required args [] = ok tt
check_required args (p ∷ ps) =
    let rest = check_required args ps in
    if is_lacking args p
    then err (ErpError.invalid_parameter p.name "required import parameter missing")
    else rest

mock_outputs : List ErpParameter → Fields
mock_outputs [] = end
mock_outputs (p ∷ ps) =
    let rest = mock_outputs ps in
    if is_export p.direction
    then field p.name (str ("<mock " <> p.type_token <> ">")) rest
    else rest

module _ (to_string : Json → String) where
  unfoldable pub arguments_of : Json → ErpResult Fields
  arguments_of (obj fs) = ok fs
  arguments_of null = ok end
  arguments_of other =
      err (ErpError.invalid_parameter "parameters" ("expected object, got " <> to_string other))

unfoldable pub executed : String → Fields → ErpOperationMeta → Json
unfolding mock_outputs
executed function args meta = obj (
    field "function" (str function) (
      field "executed_on" (str "mock.fa.oraclecloud.com")
        (field "inputs" (obj args) (field "outputs" (obj (mock_outputs meta.parameters)) end))))

abbrev pub if_checked : ErpResult {0} Unit → Json → ErpResult Json
if_checked (err e) answer = err e
if_checked (ok u) answer = ok answer

abbrev run_with : String → ErpOperationMeta → ErpResult Fields → ErpResult Json
unfolding check_required executed
run_with function meta (err e) = err e
run_with function meta (ok args) =
    if_checked (check_required args meta.parameters) (executed function args meta)

module _ (to_string : Json → String) where
  abbrev run_operation : Bool → ErpCallRequest → ErpResult ErpOperationMeta → ErpResult Json
  unfolding run_with arguments_of
  run_operation read_only_mode request (err e) = err e
  run_operation read_only_mode request (ok meta) =
      if read_only_mode && not meta.read_only
      then err (
          ErpError.permission_denied (
            "function '" <> request.function <> "' modifies state; not callable in read-only mode"))
      else run_with request.function meta (arguments_of to_string request.parameters)

  unfoldable pub call_operation : Catalogue → ErpCallRequest → Bool → ErpResult Json
  unfolding run_operation operation_metadata
  call_operation functions request read_only_mode =
      run_operation read_only_mode request (operation_metadata functions request.function)
