-- ===== src/Erp/Metadata.antt =====
-- The metadata types of crates/oracle-automate-erp/src/client.rs.
use oracle_automate.Prelude.{String, Bool, Option, List}

pub data ErpParamDirection : Type 0 where
  import export changing tables : ErpParamDirection

pub record ErpParameter : Type 0 where
  pub name : String
  pub direction : ErpParamDirection
  pub type_token : String
  pub optional : Bool
  pub description : Option String
  pub default_value : Option String

pub record RequiredPrivilege : Type 0 where
  pub privilege : String
  pub duty_role : String
  pub action : String

abbrev pub run_privilege : String → String → RequiredPrivilege
run_privilege privilege duty_role = record {
  privilege = privilege;
  duty_role = duty_role;
  action = "RUN";
}

abbrev pub view_privilege : String → String → RequiredPrivilege
view_privilege privilege duty_role = record {
  privilege = privilege;
  duty_role = duty_role;
  action = "VIEW";
}

abbrev pub manage_privilege : String → String → RequiredPrivilege
manage_privilege privilege duty_role = record {
  privilege = privilege;
  duty_role = duty_role;
  action = "MANAGE";
}

pub record ErpOperationMeta : Type 0 where
  pub function : String
  pub description : String
  pub function_group : String
  pub package_name : Option String
  pub parameters : List ErpParameter
  pub deprecated : Bool
  pub read_only : Bool
  pub commit_required : Bool
  pub authorization : List RequiredPrivilege
  pub erp_note : Option String

pub record BulkMetadata : Type 0 where
  pub language : String
  pub functions : List ErpOperationMeta
  pub missing : List String
