-- ===== src/Plugin/Condition.antt =====
-- sdk/plugin/context.go and schema.go: the conditions on which a field of a schema is visible.
pub mod Holds
use shellcn.Prelude.{
  String, Bool, true, false, not, ◌&&◌, List, [], ◌∷◌, Option, none, some, ◌==◌, string_eq,
  if◌then◌else◌,
}
use shellcn.Prelude.Map.{Map, lookup}
use shellcn.Plugin.Values.{
  Value, null, object, Library, entry, entries, to_number, as_list, prints_among, contains_value,
  empty_value, text, bool, double, single, int, int64, json_number, any_list, texts, ints, doubles,
}

-- `op_other` is any other text, which the rules do not know.
pub data Operator : Type 0 where
  op_eq op_neq op_in op_nin op_empty op_not_empty op_gt op_lt op_gte op_lte op_contains : Operator
  op_other : String → Operator

pub record Rule (F : Type 0) : Type 0 where
  pub field : String
  pub op : Operator
  pub value : Value F

mutual
  -- AllOf, AnyOf, All, Any and Not.
  pub data Condition (F : Type 0) : Type 0 where
    condition :
        List (Rule F) → List (Rule F) → Conditions F → Conditions F → Negated F → Condition F

  pub data Conditions (F : Type 0) : Type 0 where
    no_conditions : Conditions F
    condition_then : Condition F → Conditions F → Conditions F

  pub data Negated (F : Type 0) : Type 0 where
    no_condition : Negated F
    negated : Condition F → Negated F

abbrev pub is_no_rules : {F : Type 0} → List (Rule F) → Bool
is_no_rules [] = true
is_no_rules (r ∷ rules) = false

abbrev pub is_no_conditions : {F : Type 0} → Conditions F → Bool
is_no_conditions no_conditions = true
is_no_conditions (condition_then c rest) = false

module _ {F : Type 0} (lib : Library F) where
  -- The loop of `resolveField` along the segments of a path.
  unfoldable pub resolve_segments : Value F → List String → Value F
  resolve_segments cur [] = cur
  resolve_segments (object m) (seg ∷ path) = resolve_segments (entry seg m) path
  resolve_segments cur (seg ∷ path) = null

  abbrev pub resolved : Option (Value F) → Value F → Value F
  resolved (some v) below = v
  resolved none below = below

  unfoldable pub resolve_field : Map String (Value F) → String → Value F
  resolve_field values path =
      resolved (lookup path values)
        (resolve_segments (object (entries values)) (lib.split_path path))

  abbrev pub compare_both : Operator → Option F → Option F → Bool
  compare_both op none b = false
  compare_both op (some x) none = false
  compare_both op_gt (some x) (some y) = lib.less y x
  compare_both op_lt (some x) (some y) = lib.less x y
  compare_both op_gte (some x) (some y) = lib.at_most y x
  compare_both op_lte (some x) (some y) = lib.at_most x y
  compare_both op (some x) (some y) = false

  unfoldable pub compare_numbers : Operator → Value F → Value F → Bool
  compare_numbers op a b = compare_both op (to_number lib a) (to_number lib b)

  unfoldable pub match_by : Operator → Value F → Value F → Bool
  match_by op_eq v want = lib.sprint v == lib.sprint want
  match_by op_neq v want = not (lib.sprint v == lib.sprint want)
  match_by op_in v want = prints_among lib v (as_list lib want)
  match_by op_nin v want = not (prints_among lib v (as_list lib want))
  match_by op_empty v want = empty_value lib v
  match_by op_not_empty v want = not (empty_value lib v)
  match_by op_gt v want = compare_numbers op_gt v want
  match_by op_lt v want = compare_numbers op_lt v want
  match_by op_gte v want = compare_numbers op_gte v want
  match_by op_lte v want = compare_numbers op_lte v want
  match_by op_contains v want = contains_value lib v want
  match_by (op_other s) v want = false

  abbrev pub match_rule : Rule F → Value F → Bool
  match_rule rule v = match_by rule.op v rule.value

  module _ (values : Map String (Value F)) where
    abbrev pub rule_matches : Rule F → Bool
    rule_matches rule = match_rule rule (resolve_field values rule.field)

    unfoldable pub all_match : List (Rule F) → Bool
    all_match [] = true
    all_match (rule ∷ rules) =
        let rest = all_match rules in if not (rule_matches rule) then false else rest

    unfoldable pub any_match : List (Rule F) → Bool
    any_match [] = false
    any_match (rule ∷ rules) =
        let rest = any_match rules in if rule_matches rule then true else rest

    unfoldable mutual
      pub visible : Condition F → Bool
      visible (condition all_of any_of all any negation) =
          if not (all_match all_of)
          then false
          else if not (is_no_rules any_of) && not (any_match any_of)
          then false
          else if not (all_visible all)
          then false
          else if not (is_no_conditions any) && not (any_visible any)
          then false
          else if negation_visible negation
          then false
          else true

      pub all_visible : Conditions F → Bool
      all_visible no_conditions = true
      all_visible (condition_then c rest) =
          let below = all_visible rest in if not (visible c) then false else below

      pub any_visible : Conditions F → Bool
      any_visible no_conditions = false
      any_visible (condition_then c rest) =
          let below = any_visible rest in if visible c then true else below

      pub negation_visible : Negated F → Bool
      negation_visible no_condition = false
      negation_visible (negated c) = visible c

    -- `visible` of a field, which may have no condition.
    abbrev pub visible_if : Option (Condition F) → Bool
    visible_if none = true
    visible_if (some c) = visible c
