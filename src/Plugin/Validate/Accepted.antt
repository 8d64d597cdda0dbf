-- ===== src/Plugin/Validate/Accepted.antt =====
-- What the validation of a form accepts.
use shellcn.Prelude.{
  ◌≡◌, refl, ap, ◌⊎◌, inl, inr, ◌↔◌, String, Bool, true, false, not, ◌&&◌, List, [], ◌∷◌, Option,
  none, some, arith, if◌then◌else◌, ◌==◌, string_eq, Bool-cases, Option-cases, All,
}
use mathlib.Core.Path.{subst}
use shellcn.Prelude.Map.{Map, lookup}
use shellcn.Plugin.Values.{Value, Library, empty_value, empty_entry}
use shellcn.Plugin.Condition.Holds.{Some}
use shellcn.Plugin.Schema.{Field, Schema, fields_of, merged_condition_values, is_visible}
use shellcn.Plugin.Schema.Visible.{Shown, visible-Shown}
use shellcn.Plugin.Validate.{
  Failure, field_required, unknown_field, unknown_upload, is_file, present_failure, is_uploaded,
  field_failure, fields_failure, is_known, unknown_failure, validate_values_with_context,
}
use shellcn.Plugin.Validate.Rules.{Fits, validate_field_value-Fits}

module _ {F : Type 0} (lib : Library F) (condition_values values : Map String (Value F))
    (uploaded : Map String Bool) where
  -- What a field that is shown asks of the form.
  abbrev pub AsksBy : Bool → Field F → Type 0
  AsksBy true f =
      f.required ≡ true
      → (is_uploaded (lookup f.key uploaded) ≡ true)
        ⊎ (empty_entry lib (lookup f.key values) ≡ false)
  AsksBy false f =
      (f.required ≡ true → empty_entry lib (lookup f.key values) ≡ false)
      × ((v : Value F) → lookup f.key values ≡ some v → empty_value lib v ≡ false → Fits lib f v)

  abbrev pub Accepts : Field F → Type 0
  Accepts f = Shown lib condition_values f.visible_when → AsksBy (is_file f.type) f

  present_failure-Fits :
      (f : Field F) (o : Option (Value F))
      → (present_failure lib f o ≡ none)
        ↔ ((v : Value F) → o ≡ some v → empty_value lib v ≡ false → Fits lib f v)
  present_failure-Fits f none = (λ e v h. absurd (cc), λ h. refl)
  present_failure-Fits f (some w) =
      let fits = validate_field_value-Fits lib f w in
      elim (Bool-cases (empty_value lib w)) [
        | inl e ↦ (
          λ g v h n. absurd (ground (arith, e, n, ap (empty_value lib) (some_injective w v h))),
          λ h. ground (arith, e),
        )
        | inr e ↦ (
          λ g v h n. subst (Fits lib f) (some_injective w v h) (fits.0 (ground (arith, e, g))),
          λ h. ground (arith, e, fits.1 (h w refl e)),
        )
      ]
    where
      some_injective : (w v : Value F) → some w ≡ some v → w ≡ v
      some_injective w v h = ground (arith, h)

  asked_failure : Bool → Field F → Option Failure
  asked_failure true f =
      if f.required
        && (not (is_uploaded (lookup f.key uploaded)) && empty_entry lib (lookup f.key values))
      then some (field_required f.key)
      else none
  asked_failure false f =
      if f.required && empty_entry lib (lookup f.key values)
      then some (field_required f.key)
      else present_failure lib f (lookup f.key values)

  asked_failure-AsksBy : (file : Bool) (f : Field F) → (asked_failure file f ≡ none) ↔ AsksBy file f
  unfolding asked_failure
  asked_failure-AsksBy true f = elim (Bool-cases (is_uploaded (lookup f.key uploaded))) [
    | inl u ↦ (λ e r. inl u, λ h. ground (arith, u))
    | inr u ↦ elim (Bool-cases (empty_entry lib (lookup f.key values))) [
      | inl m ↦ (
        λ e r. absurd (ground (arith, e, r, u, m)),
        λ h. elim (Bool-cases f.required) [
          | inr r ↦ ground (arith, r)
          | inl r ↦ elim (h r) [
            | inl p ↦ absurd (ground (arith, u, p))
            | inr p ↦ absurd (ground (arith, m, p))
          ]
        ],
      )
      | inr m ↦ (λ e r. inr m, λ h. ground (arith, u, m))
    ]
  ]
  asked_failure-AsksBy false f =
      let p = present_failure-Fits f (lookup f.key values) in
      elim (Bool-cases (f.required && empty_entry lib (lookup f.key values))) [
        | inl m ↦ (
          λ e. absurd (ground (arith, e, m)),
          λ h. absurd (ground (arith, m, h.0 (ground (arith, m)))),
        )
        | inr m ↦ (
          λ e. (λ r. ground (arith, r, m), p.0 (ground (arith, m, e))),
          λ h. ground (arith, m, p.1 h.1),
        )
      ]

  field_failure-asked :
      (f : Field F)
      → field_failure lib condition_values values uploaded f ≡ (
          if not (is_visible lib condition_values f)
          then none
          else asked_failure (is_file f.type) f)
  unfolding field_failure asked_failure
  field_failure-asked f = elim (Bool-cases (is_file f.type)) [
    | inl e ↦ rw e refl
    | inr e ↦ rw e refl
  ]

  field_failure-Accepts :
      (f : Field F) → (field_failure lib condition_values values uploaded f ≡ none) ↔ Accepts f
  field_failure-Accepts f =
      let v = visible-Shown lib condition_values f.visible_when in
      let a = asked_failure-AsksBy (is_file f.type) f in
      let same = field_failure-asked f in
      elim (Bool-cases (is_visible lib condition_values f)) [
        | inl e ↦ (
          λ g shown. a.0 (ground (arith, same, e, g)),
          λ h. ground (arith, same, e, a.1 (h (v.0 e))),
        )
        | inr e ↦ (λ g shown. absurd (ground (arith, e, v.1 shown)), λ h. ground (arith, same, e))
      ]

  fields_failure-Accepts :
      (fields : List (Field F))
      → (fields_failure lib condition_values values uploaded fields ≡ none) ↔ All Accepts fields
  unfolding fields_failure
  fields_failure-Accepts [] = (λ e. tt, λ h. refl)
  fields_failure-Accepts (f ∷ fields) =
      let first = field_failure-Accepts f in
      let below = fields_failure-Accepts fields in
      elim (Option-cases (field_failure lib condition_values values uploaded f)) [
        | inl e ↦
            (λ g. (first.0 e, below.0 (ground (arith, e, g))), λ h. ground (arith, e, below.1 h.1))
        | inr (x, e) ↦
            (λ g. absurd (ground (arith, e, g)), λ h. absurd (ground (arith, e, first.1 h.0)))
      ]

-- Some field of the schema has the key.
abbrev pub Known : {F : Type 0} → List (Field F) → String → Type 0
Known fields key = Some (λ f. f.key ≡ key) fields

is_known-Known :
    {F : Type 0} (fields : List (Field F)) (key : String)
    → (is_known fields key ≡ true) ↔ Known fields key
is_known-Known [] key = (λ e. absurd (cc), λ h. absurd h)
is_known-Known (f ∷ fields) key =
    let below = is_known-Known fields key in
    elim (Bool-cases (f.key == key)) [
      | inl b ↦ (λ e. inl ((string_eq.same_iff f.key key).0 b), λ h. ground (arith, b))
      | inr b ↦ (
        λ e. inr (below.0 (ground (arith, b, e))),
        λ h. elim h [
          | inl p ↦ absurd (ground (arith, b, (string_eq.same_iff f.key key).1 p))
          | inr p ↦ ground (arith, b, below.1 p)
        ],
      )
    ]

unknown_failure-Known :
    {F : Type 0} {V : Type 0} (fields : List (Field F)) (fail : String → Failure) (m : Map String V)
    → (unknown_failure (is_known fields) fail m ≡ none) ↔ All (λ e. Known fields e.0) m
unfolding unknown_failure
unknown_failure-Known fields fail [] = (λ e. tt, λ h. refl)
unknown_failure-Known fields fail ((key, v) ∷ m) =
    let known = is_known-Known fields key in
    let below = unknown_failure-Known fields fail m in
    elim (Bool-cases (is_known fields key)) [
      | inl b ↦
          (λ e. (known.0 b, below.0 (ground (arith, b, e))), λ h. ground (arith, b, below.1 h.1))
      | inr b ↦ (λ e. absurd (ground (arith, b, e)), λ h. absurd (ground (arith, b, known.1 h.0)))
    ]

-- The validation accepts a form exactly when every field of the schema that is shown under the
-- values and the context accepts what the form has for it (a file is uploaded where it is required;
-- another field has a value where it is required, and a value that is not empty has the type, is
-- among the options and passes the validators of the field), and every key of the values and of the
-- uploads is that of a field.
pub validate_values_with_context-Accepts :
    {F : Type 0} (lib : Library F) (s : Schema F) (values : Map String (Value F))
    (uploaded : Map String Bool) (context : Map String (Value F))
    → (validate_values_with_context lib s values uploaded context ≡ none) ↔ (
        All
          (Accepts lib (merged_condition_values values context) values uploaded)
          (fields_of s.groups)
        × All (λ e. Known (fields_of s.groups) e.0) values
        × All (λ e. Known (fields_of s.groups) e.0) uploaded)
unfolding validate_values_with_context
validate_values_with_context-Accepts lib s values uploaded context =
    let fields = fields_of s.groups in
    let cv = merged_condition_values values context in
    let a = fields_failure-Accepts lib cv values uploaded fields in
    let b = unknown_failure-Known fields unknown_field values in
    let c = unknown_failure-Known fields unknown_upload uploaded in
    elim (Option-cases (fields_failure lib cv values uploaded fields)) [
      | inr (x, e) ↦ (λ g. absurd (ground (arith, e, g)), λ h. absurd (ground (arith, e, a.1 h.0)))
      | inl e ↦ elim (Option-cases (unknown_failure (is_known fields) unknown_field values)) [
        | inr (x, o) ↦
            (λ g. absurd (ground (arith, e, o, g)), λ h. absurd (ground (arith, o, b.1 h.1)))
        | inl o ↦
            (λ g. (a.0 e, b.0 o, c.0 (ground (arith, e, o, g))), λ h. ground (arith, e, o, c.1 h.2))
      ]
    ]
