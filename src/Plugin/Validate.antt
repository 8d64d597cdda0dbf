-- ===== src/Plugin/Validate.antt =====
-- sdk/plugin/context.go, `ValidateValuesWithContext`: the values of a form against its schema. The
-- sets `known` and `allowed` of the source are asked by a search of the list that they are made of.
pub mod Options
pub mod Bounds
pub mod Rules
pub mod Accepted
use shellcn.Prelude.{
  String, Bool, true, false, not, ◌&&◌, ◌||◌, List, [], ◌∷◌, Option, none, some, ◌==◌, string_eq,
  if◌then◌else◌,
}
use Prim.Native.String.{◌++◌ as str_append}
use shellcn.Prelude.Map.{Map, lookup}
use shellcn.Plugin.Values.{
  Value, Values, null, text, bool, double, single, int, int64, json_number, any_list, texts, ints,
  doubles, object, Library, number_value, as_list, prints_among, empty_value, empty_entry, items,
}
use shellcn.Plugin.Schema.{
  FieldType, field_text, field_email, field_url, field_tel, field_number, field_stepper,
  field_slider, field_password, field_select, field_radio, field_multi_select, field_file,
  field_toggle, field_textarea, field_json, field_duration, field_credential_ref, field_object,
  field_array, field_autocomplete, field_map, ValidatorType, validator_min, validator_max,
  validator_regex, validator_one_of, validator_other, Validator, Field, Schema, fields_of,
  merged_condition_values, is_visible,
}

pub data Failure : Type 0 where
  field_required not_string not_number not_boolean not_list invalid_option : String → Failure
  failed_rule invalid_regex unknown_field unknown_upload : String → Failure

-- What the first switch of `validateFieldValue` asks of a type.
pub data Shape : Type 0 where
  string_shape number_shape boolean_shape list_shape any_shape : Shape

abbrev pub shape_of : FieldType → Shape
shape_of field_text = string_shape
shape_of field_email = string_shape
shape_of field_url = string_shape
shape_of field_tel = string_shape
shape_of field_password = string_shape
shape_of field_textarea = string_shape
shape_of field_duration = string_shape
shape_of field_credential_ref = string_shape
shape_of field_radio = string_shape
shape_of field_number = number_shape
shape_of field_stepper = number_shape
shape_of field_slider = number_shape
shape_of field_toggle = boolean_shape
shape_of field_multi_select = list_shape
shape_of field_select = any_shape
shape_of field_file = any_shape
shape_of field_json = any_shape
shape_of field_object = any_shape
shape_of field_array = any_shape
shape_of field_autocomplete = any_shape
shape_of field_map = any_shape

abbrev pub validator_text : ValidatorType → String
validator_text validator_min = "min"
validator_text validator_max = "max"
validator_text validator_regex = "regex"
validator_text validator_one_of = "oneOf"
validator_text (validator_other s) = s

abbrev pub is_file : FieldType → Bool
is_file field_file = true
is_file t = false

abbrev pub has_choices : FieldType → Bool
has_choices field_select = true
has_choices field_multi_select = true
has_choices field_radio = true
has_choices t = false

abbrev pub is_multi : FieldType → Bool
is_multi field_multi_select = true
is_multi t = false

-- The next check, where the one before has not failed.
abbrev pub then_check : Option Failure → Option Failure → Option Failure
then_check (some e) next = some e
then_check none next = next

abbrev pub no_options {ℓ} : {A : Type ℓ} → List A → Bool
no_options [] = true
no_options (x ∷ xs) = false

-- `uploaded[field.Key]`
abbrev pub is_uploaded : Option Bool → Bool
is_uploaded none = false
is_uploaded (some b) = b

module _ {F : Type 0} (lib : Library F) where
  abbrev pub string_failure : String → Value F → Option Failure
  string_failure key (text s) = none
  string_failure key v = some (not_string key)

  abbrev pub number_failure : String → Option F → Option Failure
  number_failure key (some x) = none
  number_failure key none = some (not_number key)

  abbrev pub boolean_failure : String → Value F → Option Failure
  boolean_failure key (bool b) = none
  boolean_failure key v = some (not_boolean key)

  abbrev pub list_failure : String → Value F → Option Failure
  list_failure key (any_list l) = none
  list_failure key v = some (not_list key)

  abbrev pub shape_failure : String → Shape → Value F → Option Failure
  shape_failure key string_shape v = string_failure key v
  shape_failure key number_shape v = number_failure key (number_value lib v)
  shape_failure key boolean_shape v = boolean_failure key v
  shape_failure key list_shape v = list_failure key v
  shape_failure key any_shape v = none

  -- `items, _ := value.([]any)`
  abbrev pub list_items : Value F → List (Value F)
  list_items (any_list l) = items l
  list_items v = []

  unfoldable pub items_failure : String → List (Value F) → List (Value F) → Option Failure
  items_failure key options [] = none
  items_failure key options (item ∷ rest) =
      let below = items_failure key options rest in
      if not (prints_among lib item options) then some (invalid_option key) else below

  unfoldable pub validate_options : Field F → Value F → Option Failure
  validate_options f v =
      if is_multi f.type
      then items_failure f.key f.options (list_items v)
      else if not (prints_among lib v f.options)
      then some (invalid_option f.key)
      else none

  -- `ok && n < m` and `ok && n > m`
  abbrev pub is_below : Option F → F → Bool
  is_below none m = false
  is_below (some n) m = lib.less n m

  abbrev pub is_above : Option F → F → Bool
  is_above none m = false
  is_above (some n) m = lib.less m n

  -- `float64(len(s))`, for a string.
  abbrev pub text_length : Value F → Option F
  text_length (text s) = some (lib.of_int (lib.byte_length s))
  text_length v = none

  abbrev pub min_fails : Option F → Value F → Bool
  min_fails none v = false
  min_fails (some m) v =
      if is_below (number_value lib v) m then true else is_below (text_length v) m

  abbrev pub max_fails : Option F → Value F → Bool
  max_fails none v = false
  max_fails (some m) v =
      if is_above (number_value lib v) m then true else is_above (text_length v) m

  abbrev pub mismatches : (String → Bool) → Value F → Bool
  mismatches re (text s) = not (re s)
  mismatches re v = true

  abbrev pub regex_failure : String → String → Option (String → Bool) → Value F → Option Failure
  regex_failure key msg none v = some (invalid_regex key)
  regex_failure key msg (some re) v = if mismatches re v then some (failed_rule msg) else none

  abbrev pub pattern_failure : String → String → Value F → Value F → Option Failure
  pattern_failure key msg (text pattern) v = regex_failure key msg (lib.compile pattern) v
  pattern_failure key msg w v = none

  abbrev pub rule_failure : String → String → ValidatorType → Value F → Value F → Option Failure
  rule_failure key msg validator_min w v =
      if min_fails (number_value lib w) v then some (failed_rule msg) else none
  rule_failure key msg validator_max w v =
      if max_fails (number_value lib w) v then some (failed_rule msg) else none
  rule_failure key msg validator_regex w v = pattern_failure key msg w v
  rule_failure key msg validator_one_of w v =
      if prints_among lib v (as_list lib w) then none else some (failed_rule msg)
  rule_failure key msg (validator_other s) w v = none

  unfoldable pub rule_message : Field F → Validator F → String
  rule_message f rule =
      if rule.message == ""
      then str_append f.key
          (str_append " failed " (str_append (validator_text rule.type) " validation"))
      else rule.message

  unfoldable pub validate_rule : Field F → Validator F → Value F → Option Failure
  validate_rule f rule v = rule_failure f.key (rule_message f rule) rule.type rule.value v

  unfoldable pub rules_failure : Field F → List (Validator F) → Value F → Option Failure
  rules_failure f [] v = none
  rules_failure f (rule ∷ rules) v = then_check (validate_rule f rule v) (rules_failure f rules v)

  unfoldable pub validate_field_value : Field F → Value F → Option Failure
  validate_field_value f v = then_check (shape_failure f.key (shape_of f.type) v) (
      then_check
        (if not (no_options f.options) && has_choices f.type then validate_options f v else none)
        (rules_failure f f.validators v))

  abbrev pub present_failure : Field F → Option (Value F) → Option Failure
  present_failure f none = none
  present_failure f (some v) = if empty_value lib v then none else validate_field_value f v

  module _ (condition_values values : Map String (Value F)) (uploaded : Map String Bool) where
    -- One field's turn in the loop.
    unfoldable pub field_failure : Field F → Option Failure
    field_failure f =
        if not (is_visible lib condition_values f)
        then none
        else if is_file f.type
        then (if f.required
              && (not (is_uploaded (lookup f.key uploaded))
                  && empty_entry lib (lookup f.key values))
            then some (field_required f.key)
            else none)
        else if f.required && empty_entry lib (lookup f.key values)
        then some (field_required f.key)
        else present_failure f (lookup f.key values)

    unfoldable pub fields_failure : List (Field F) → Option Failure
    fields_failure [] = none
    fields_failure (f ∷ fields) = then_check (field_failure f) (fields_failure fields)

abbrev pub is_known : {F : Type 0} → List (Field F) → String → Bool
is_known [] key = false
is_known (f ∷ fields) key = f.key == key || is_known fields key

-- The loops over the keys of the values and of the uploads.
unfoldable pub unknown_failure {ℓ} :
    {V : Type ℓ} → (String → Bool) → (String → Failure) → Map String V → Option Failure
unknown_failure known fail [] = none
unknown_failure known fail ((key, v) ∷ m) =
    let rest = unknown_failure known fail m in if not (known key) then some (fail key) else rest

unfoldable pub validate_values_with_context :
    {F : Type 0}
    → Library F
    → Schema F
    → Map String (Value F)
    → Map String Bool
    → Map String (Value F)
    → Option Failure
validate_values_with_context lib s values uploaded context =
    let fields = fields_of s.groups in
    then_check (fields_failure lib (merged_condition_values values context) values uploaded fields)
      (then_check (unknown_failure (is_known fields) unknown_field values)
        (unknown_failure (is_known fields) unknown_upload uploaded))

-- `ValidateValues`, without a context.
unfoldable pub validate_values :
    {F : Type 0} → Library F → Schema F → Map String (Value F) → Map String Bool → Option Failure
validate_values lib s values uploaded = validate_values_with_context lib s values uploaded []
