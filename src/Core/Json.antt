-- ===== src/Core/Json.antt =====
-- The values that `json.loads` gives. Numbers are not negative; a float is the count of its
-- millionths.
use agentic_test_system.Prelude.{
  ℕ, String, Bool, Option, none, some, ◌==◌, string_eq, if◌then◌else◌,
}

mutual
  pub data Json : Type 0 where
    json_null : Json
    json_bool : Bool → Json
    json_int : ℕ → Json
    json_float : ℕ → Json
    json_text : String → Json
    json_list : Items → Json
    json_object : Fields → Json

  pub data Items : Type 0 where
    no_items : Items
    item : Json → Items → Items

  pub data Fields : Type 0 where
    no_fields : Fields
    field : String → Json → Fields → Fields

-- `d.get(key)`
unfoldable pub get_field : String → Fields → Option Json
get_field k no_fields = none
get_field k (field key v fs) = let rest = get_field k fs in if key == k then some v else rest

-- `isinstance(value, dict)`, with the dictionary.
abbrev pub as_object : Option Json → Option Fields
as_object (some (json_object fs)) = some fs
as_object _ = none
