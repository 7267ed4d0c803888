-- ===== src/Json.antt =====
-- `serde_json::Value`. A number is kept as the text that `to_string` prints of it; an object lists
-- its entries in the order in which `serde_json::Map` walks them.
use oracle_automate.Prelude.{Bool, true, false, String, Option, none, some, str_eq, if◌then◌else◌}

mutual
  pub data Json : Type 0 where
    null : Json
    bool : Bool → Json
    num : String → Json
    str : String → Json
    arr : Items → Json
    obj : Fields → Json

  pub data Items : Type 0 where
    nil : Items
    cons : Json → Items → Items

  pub data Fields : Type 0 where
    end : Fields
    field : String → Json → Fields → Fields

-- `Map::get`
unfoldable pub get_field : String → Fields → Option Json
get_field k end = none
get_field k (field j v fs) = if str_eq j k then some v else get_field k fs

-- `Value::get` with a key: none unless the value is an object that holds it.
unfoldable pub get_key : String → Json → Option Json
unfolding get_field
get_key k (obj fs) = get_field k fs
get_key k _ = none

abbrev pub is_some {ℓ} : {A : Type ℓ} → Option A → Bool
is_some none = false
is_some (some a) = true
