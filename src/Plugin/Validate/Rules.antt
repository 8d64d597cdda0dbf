-- ===== src/Plugin/Validate/Rules.antt =====
-- What a field's type, options and validators ask of a value.
use shellcn.Prelude.{
  ◌≡◌, refl, inl, inr, ◌↔◌, String, Bool, true, false, not, ◌&&◌, List, [], ◌∷◌, none, some, arith,
  if◌then◌else◌, string_eq, Bool-cases, Option-cases, All,
}
use mathlib.Core.Path.{subst}
use shellcn.Plugin.Values.{
  Value, Values, text, bool, any_list, Library, number_value, as_list, prints_among,
}
use shellcn.Plugin.Schema.{
  ValidatorType, validator_min, validator_max, validator_regex, validator_one_of, validator_other,
  Validator, Field,
}
use shellcn.Plugin.Validate.{
  Shape, string_shape, number_shape, boolean_shape, list_shape, any_shape, shape_of, has_choices,
  no_options, shape_failure, validate_options, min_fails, max_fails, pattern_failure, rule_failure,
  rule_message, validate_rule, rules_failure, validate_field_value,
}
use shellcn.Plugin.Validate.Options.{
  Chooses, PrintsAmong, prints_among-PrintsAmong, validate_options-Chooses,
}
use shellcn.Plugin.Validate.Bounds.{
  HoldsBound, max_fails-HoldsBound, min_fails-HoldsBound, regex_failure-none,
}

module _ {F : Type 0} (lib : Library F) where
  abbrev pub HasShape : Shape → Value F → Type 0
  HasShape string_shape v = (s : String) × (v ≡ text s)
  HasShape number_shape v = (x : F) × (number_value lib v ≡ some x)
  HasShape boolean_shape v = (b : Bool) × (v ≡ bool b)
  HasShape list_shape v = (l : Values F) × (v ≡ any_list l)
  HasShape any_shape v = Unit

  shape_failure-HasShape :
      (key : String) (shape : Shape) (v : Value F)
      → (shape_failure lib key shape v ≡ none) ↔ HasShape shape v
  shape_failure-HasShape key string_shape (text s) = (λ e. (s, refl), λ h. refl)
  shape_failure-HasShape key string_shape v = (λ e. absurd (cc), λ h. absurd (ground (arith, h.1)))
  shape_failure-HasShape key number_shape v = elim (Option-cases (number_value lib v)) [
    | inl e ↦ (λ f. absurd (ground (arith, e, f)), λ h. absurd (ground (arith, e, h.1)))
    | inr (x, e) ↦ (λ f. (x, e), λ h. ground (arith, e))
  ]
  shape_failure-HasShape key boolean_shape (bool b) = (λ e. (b, refl), λ h. refl)
  shape_failure-HasShape key boolean_shape v = (λ e. absurd (cc), λ h. absurd (ground (arith, h.1)))
  shape_failure-HasShape key list_shape (any_list l) = (λ e. (l, refl), λ h. refl)
  shape_failure-HasShape key list_shape v = (λ e. absurd (cc), λ h. absurd (ground (arith, h.1)))
  shape_failure-HasShape key any_shape v = (λ e. tt, λ h. refl)

  abbrev pub PassesBy : ValidatorType → Value F → Value F → Type 0
  PassesBy validator_min w v = HoldsBound lib (λ n m. lib.less n m ≡ false) w v
  PassesBy validator_max w v = HoldsBound lib (λ n m. lib.less m n ≡ false) w v
  PassesBy validator_regex w v =
      (pattern : String)
      → w ≡ text pattern
      → (re : String → Bool) × (s : String) × (lib.compile pattern ≡ some re)
        × (v ≡ text s)
        × (re s ≡ true)
  PassesBy validator_one_of w v = PrintsAmong lib v (as_list lib w)
  PassesBy (validator_other t) w v = Unit

  pattern_failure-PassesBy :
      (key msg : String) (w v : Value F)
      → (pattern_failure lib key msg w v ≡ none) ↔ PassesBy validator_regex w v
  pattern_failure-PassesBy key msg (text pattern) v =
      let r = regex_failure-none lib key msg (lib.compile pattern) v in
      (
        λ e p same.
            subst
              (λ p.
                (re : String → Bool) × (s : String) × (lib.compile p ≡ some re)
                × (v ≡ text s)
                × (re s ≡ true))
              (ground (arith, same)) (r.0 e),
        λ h. r.1 (h pattern refl),
      )
  pattern_failure-PassesBy key msg w v = (λ e p h. absurd (cc), λ h. refl)

  rule_failure-PassesBy :
      (key msg : String) (t : ValidatorType) (w v : Value F)
      → (rule_failure lib key msg t w v ≡ none) ↔ PassesBy t w v
  rule_failure-PassesBy key msg validator_min w v =
      let m = min_fails-HoldsBound lib w v in
      elim (Bool-cases (min_fails lib (number_value lib w) v)) [
        | inl e ↦ (λ f. absurd (ground (arith, e, f)), λ h. absurd (ground (arith, e, m.1 h)))
        | inr e ↦ (λ f. m.0 e, λ h. ground (arith, e))
      ]
  rule_failure-PassesBy key msg validator_max w v =
      let m = max_fails-HoldsBound lib w v in
      elim (Bool-cases (max_fails lib (number_value lib w) v)) [
        | inl e ↦ (λ f. absurd (ground (arith, e, f)), λ h. absurd (ground (arith, e, m.1 h)))
        | inr e ↦ (λ f. m.0 e, λ h. ground (arith, e))
      ]
  rule_failure-PassesBy key msg validator_regex w v = pattern_failure-PassesBy key msg w v
  rule_failure-PassesBy key msg validator_one_of w v =
      let p = prints_among-PrintsAmong lib v (as_list lib w) in
      elim (Bool-cases (prints_among lib v (as_list lib w))) [
        | inl e ↦ (λ f. p.0 e, λ h. ground (arith, e))
        | inr e ↦ (λ f. absurd (ground (arith, e, f)), λ h. absurd (ground (arith, e, p.1 h)))
      ]
  rule_failure-PassesBy key msg (validator_other s) w v = (λ e. tt, λ h. refl)

  abbrev pub Passes : Value F → Validator F → Type 0
  Passes v rule = PassesBy rule.type rule.value v

  rules_failure-Passes :
      (f : Field F) (rules : List (Validator F)) (v : Value F)
      → (rules_failure lib f rules v ≡ none) ↔ All (Passes v) rules
  unfolding rules_failure validate_rule
  rules_failure-Passes f [] v = (λ e. tt, λ h. refl)
  rules_failure-Passes f (rule ∷ rules) v =
      let r = rule_failure-PassesBy f.key (rule_message lib f rule) rule.type rule.value v in
      let below = rules_failure-Passes f rules v in
      elim (Option-cases
        (rule_failure lib f.key (rule_message lib f rule) rule.type rule.value v)) [
          | inl e ↦
              (λ g. (r.0 e, below.0 (ground (arith, e, g))), λ h. ground (arith, e, below.1 h.1))
          | inr (x, e) ↦
              (λ g. absurd (ground (arith, e, g)), λ h. absurd (ground (arith, e, r.1 h.0)))
        ]

  -- The value fits the field: its type, its options and all its validators.
  abbrev pub Fits : Field F → Value F → Type 0
  Fits f v = HasShape (shape_of f.type) v × Chooses lib f v × All (Passes v) f.validators

  pub validate_field_value-Fits :
      (f : Field F) (v : Value F) → (validate_field_value lib f v ≡ none) ↔ Fits f v
  unfolding validate_field_value
  validate_field_value-Fits f v =
      let a = shape_failure-HasShape f.key (shape_of f.type) v in
      let b = validate_options-Chooses lib f v in
      let c = rules_failure-Passes f f.validators v in
      elim (Option-cases (shape_failure lib f.key (shape_of f.type) v)) [
        | inr (x, e) ↦
            (λ g. absurd (ground (arith, e, g)), λ h. absurd (ground (arith, e, a.1 h.0)))
        | inl e ↦
            elim (Option-cases (
              if not (no_options f.options) && has_choices f.type
              then validate_options lib f v
              else none)) [
                | inr (x, o) ↦ (
                  λ g. absurd (ground (arith, e, o, g)),
                  λ h. absurd (ground (arith, o, b.1 h.1)),
                )
                | inl o ↦ (
                  λ g. (a.0 e, b.0 o, c.0 (ground (arith, e, o, g))),
                  λ h. ground (arith, e, o, c.1 h.2),
                )
              ]
      ]
