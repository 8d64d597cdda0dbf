-- ===== src/Plugin/Tests.antt =====
-- Runs of the schema's functions, and the theorems at a concrete form.
use shellcn.Prelude.{
  ◌≡◌, refl, inl, String, Bool, true, false, List, [], ◌∷◌, Option, none, some, ◌==◌, string_eq,
  All,
}
use shellcn.Prelude.Int.{ℤ, pos, ltb_ℤ}
use shellcn.Prelude.Map.{Map, lookup, insert, IsMap}
use shellcn.Plugin.Values.{
  Value, null, text, bool, int, Library, number_value, empty_value, entry, entries,
}
use shellcn.Plugin.Condition.{
  Condition, condition, no_conditions, no_condition, condition_then, op_eq, op_not_empty,
  resolve_field, match_by, all_match, any_match, visible, resolve_segments,
}
use shellcn.Plugin.Condition.Holds.{Holds, visible_lem, Some}
use shellcn.Plugin.Schema.{
  Schema, field_text, field_password, field_number, validator_min, fields_of, copy_over,
  merged_condition_values, visible_values, visible_secret_keys_from, visible_secret_keys,
}
use shellcn.Plugin.Schema.Visible.{visible_values-Shows}
use shellcn.Plugin.Validate.{
  validate_values_with_context, fields_failure, field_failure, validate_field_value, rules_failure,
  validate_rule, unknown_failure, field_required,
}
use shellcn.Plugin.Validate.Accepted.{Known, validate_values_with_context-Accepts}

print : Value ℤ → String
print (text s) = s
print (bool true) = "true"
print (bool false) = "false"
print v = "?"

no_number : String → Option ℤ
no_number s = none

whole_path : String → List String
whole_path s = s ∷ []

any_pattern : String → Option (String → Bool)
any_pattern s = some (λ t. s == t)

library : Library ℤ
library = record {
  sprint = print;
  trim = λ s. s;
  contains_text = λ s t. s == t;
  split_path = whole_path;
  byte_length = λ s. pos 3;
  parse_float = no_number;
  compile = any_pattern;
  of_int = λ n. n;
  less = ltb_ℤ;
  at_most = λ a b. ltb_ℤ a b;
}

-- The transport is "agent", and the host is given.
abbrev through_agent : Condition ℤ
through_agent =
    condition (record { field = "$transport"; op = op_eq; value = text "agent" } ∷ []) []
      no_conditions
      (condition_then
        (condition (record { field = "host"; op = op_not_empty; value = null } ∷ []) []
          no_conditions no_conditions no_condition)
        no_conditions)
      no_condition

abbrev form : Schema ℤ
form = record {
  groups =
      record {
        name = "Connection";
        fields =
            record {
              key = "host";
              type = field_text;
              required = true;
              secret = false;
              default_value = null;
              options = [];
              visible_when = none;
              validators = [];
            }
            ∷ record {
              key = "port";
              type = field_number;
              required = false;
              secret = false;
              default_value = int (pos 22);
              options = [];
              visible_when = none;
              validators = record { type = validator_min; value = int (pos 1); message = "" } ∷ [];
            }
            ∷ record {
              key = "token";
              type = field_password;
              required = true;
              secret = true;
              default_value = null;
              options = [];
              visible_when = some through_agent;
              validators = [];
            }
            ∷ [];
      }
      ∷ [];
}

abbrev host_only : Map String (Value ℤ)
host_only = ("host", text "db") ∷ []

abbrev full : Map String (Value ℤ)
full = ("host", text "db") ∷ ("port", int (pos 5432)) ∷ ("token", text "t") ∷ []

abbrev agent : Map String (Value ℤ)
agent = ("$transport", text "agent") ∷ []

shown_through_agent : visible library (merged_condition_values host_only agent) through_agent ≡ true
unfolding library print whole_path visible all_match any_match resolve_field match_by lookup insert
    merged_condition_values copy_over empty_value
shown_through_agent = refl

hidden_directly : visible library host_only through_agent ≡ false
unfolding library print whole_path visible all_match any_match resolve_field resolve_segments
    match_by lookup entry entries
hidden_directly = refl

accepted_full : validate_values_with_context library form full [] agent ≡ none
unfolding library print whole_path validate_values_with_context fields_failure field_failure
    validate_field_value rules_failure validate_rule unknown_failure number_value visible all_match
    any_match resolve_field match_by lookup insert merged_condition_values copy_over empty_value
    fields_of
accepted_full = refl

token_required :
    validate_values_with_context library form host_only [] agent ≡ some (field_required "token")
unfolding library print whole_path validate_values_with_context fields_failure field_failure
    validate_field_value rules_failure validate_rule unknown_failure number_value visible all_match
    any_match resolve_field match_by lookup insert merged_condition_values copy_over empty_value
    fields_of
token_required = refl

visible_lem_example : Holds library (merged_condition_values host_only agent) through_agent
visible_lem_example =
    (visible_lem library (merged_condition_values host_only agent) through_agent).0
      shown_through_agent

validate_values_with_context-Accepts_example : All (λ e. Known (fields_of form.groups) e.0) full
validate_values_with_context-Accepts_example =
    ((validate_values_with_context-Accepts library form full [] agent).0 accepted_full).1

host_only-IsMap : IsMap host_only
unfolding lookup
host_only-IsMap = (refl, tt)

agent-IsMap : IsMap agent
unfolding lookup
agent-IsMap = (refl, tt)

visible_values-Shows_example :
    lookup "host" (visible_values library form full agent) ≡ some (text "db")
unfolding lookup fields_of
visible_values-Shows_example =
    (visible_values-Shows library form full agent "host" (text "db")).1 (refl, inl (refl, tt))

token_listed : Some (λ key. key ≡ "token") (visible_secret_keys library form full agent)
unfolding library print whole_path visible_secret_keys visible_secret_keys_from visible all_match
    any_match resolve_field match_by lookup insert merged_condition_values copy_over empty_value
    fields_of
token_listed = inl refl
