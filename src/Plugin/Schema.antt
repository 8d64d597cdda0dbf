-- ===== src/Plugin/Schema.antt =====
-- sdk/plugin/schema.go: a schema, its defaults, and the values and secrets that are visible
-- (sdk/plugin/context.go). Of a field, what these functions and the validation read.
pub mod Defaults
pub mod Visible
use shellcn.Prelude.{
  String, Bool, true, false, not, ◌&&◌, List, [], ◌∷◌, ◌++◌, Option, none, some, ◌==◌, string_eq,
  if◌then◌else◌,
}
use shellcn.Prelude.Map.{Map, lookup, insert}
use shellcn.Plugin.Values.{Value, Library, null}
use shellcn.Plugin.Condition.{Condition, visible_if}

pub data FieldType : Type 0 where
  field_text field_email field_url field_tel field_number field_stepper field_slider : FieldType
  field_password field_select field_radio field_multi_select field_file field_toggle : FieldType
  field_textarea field_json field_duration field_credential_ref field_object : FieldType
  field_array field_autocomplete field_map : FieldType

pub data ValidatorType : Type 0 where
  validator_min validator_max validator_regex validator_one_of : ValidatorType
  validator_other : String → ValidatorType

pub record Validator (F : Type 0) : Type 0 where
  pub type : ValidatorType
  pub value : Value F
  pub message : String

-- A nil default is `null`. Of an option, its value.
pub record Field (F : Type 0) : Type 0 where
  pub key : String
  pub type : FieldType
  pub required : Bool
  pub secret : Bool
  pub default_value : Value F
  pub options : List (Value F)
  pub visible_when : Option (Condition F)
  pub validators : List (Validator F)

pub record Group (F : Type 0) : Type 0 where
  pub name : String
  pub fields : List (Field F)

pub record Schema (F : Type 0) : Type 0 where
  pub groups : List (Group F)

abbrev pub is_null : {F : Type 0} → Value F → Bool
is_null null = true
is_null v = false

-- The fields in the order in which the two loops meet them.
unfoldable pub fields_of : {F : Type 0} → List (Group F) → List (Field F)
fields_of [] = []
fields_of (g ∷ groups) = g.fields ++ fields_of groups

unfoldable pub defaults_from :
    {F : Type 0} → List (Field F) → Map String (Value F) → Map String (Value F)
defaults_from [] out = out
defaults_from (f ∷ fields) out =
    defaults_from fields
      (if not (is_null f.default_value) then insert f.key f.default_value out else out)

abbrev pub defaults : {F : Type 0} → Schema F → Map String (Value F)
defaults s = defaults_from (fields_of s.groups) []

-- The loop `for key, value := range values { out[key] = value }`.
unfoldable pub copy_over :
    {F : Type 0} → Map String (Value F) → Map String (Value F) → Map String (Value F)
copy_over [] out = out
copy_over ((k, v) ∷ values) out = copy_over values (insert k v out)

unfoldable pub values_with_defaults :
    {F : Type 0} → Schema F → Map String (Value F) → Map String (Value F)
values_with_defaults s values = copy_over values (defaults s)

unfoldable pub merged_condition_values :
    {F : Type 0} → Map String (Value F) → Map String (Value F) → Map String (Value F)
merged_condition_values values [] = values
merged_condition_values values (c ∷ context) = copy_over (c ∷ context) (copy_over values [])

module _ {F : Type 0} (lib : Library F) where
  abbrev pub is_visible : Map String (Value F) → Field F → Bool
  is_visible condition_values f = visible_if lib condition_values f.visible_when

  abbrev pub put_present : String → Option (Value F) → Map String (Value F) → Map String (Value F)
  put_present key none out = out
  put_present key (some v) out = insert key v out

  unfoldable pub visible_values_from :
      Map String (Value F)
      → Map String (Value F)
      → List (Field F)
      → Map String (Value F)
      → Map String (Value F)
  visible_values_from condition_values values [] out = out
  visible_values_from condition_values values (f ∷ fields) out =
      visible_values_from condition_values values fields (
        if not (is_visible condition_values f)
        then out
        else put_present f.key (lookup f.key values) out)

  unfoldable pub visible_values :
      Schema F → Map String (Value F) → Map String (Value F) → Map String (Value F)
  visible_values s values context =
      visible_values_from (merged_condition_values values context) values (fields_of s.groups) []

  unfoldable pub visible_secret_keys_from : Map String (Value F) → List (Field F) → List String
  visible_secret_keys_from condition_values [] = []
  visible_secret_keys_from condition_values (f ∷ fields) =
      let rest = visible_secret_keys_from condition_values fields in
      if f.secret && is_visible condition_values f then f.key ∷ rest else rest

  unfoldable pub visible_secret_keys :
      Schema F → Map String (Value F) → Map String (Value F) → List String
  visible_secret_keys s values context =
      visible_secret_keys_from (merged_condition_values values context) (fields_of s.groups)
