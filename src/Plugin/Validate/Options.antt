-- ===== src/Plugin/Validate/Options.antt =====
-- What a field's options ask of a value.
use shellcn.Prelude.{
  ◌≡◌, refl, inl, inr, ◌↔◌, String, Bool, true, false, not, ◌&&◌, List, [], ◌∷◌, none, arith,
  if◌then◌else◌, ◌==◌, string_eq, Bool-cases, All,
}
use shellcn.Plugin.Values.{Value, Library, prints_among}
use shellcn.Plugin.Condition.Holds.{Some}
use shellcn.Plugin.Schema.{Field}
use shellcn.Plugin.Validate.{
  is_multi, has_choices, no_options, list_items, items_failure, validate_options,
}

module _ {F : Type 0} (lib : Library F) where
  -- The value prints like one of the list.
  abbrev pub PrintsAmong : Value F → List (Value F) → Type 0
  PrintsAmong v l = Some (λ item. lib.sprint v ≡ lib.sprint item) l

  pub prints_among-PrintsAmong :
      (v : Value F) (l : List (Value F)) → (prints_among lib v l ≡ true) ↔ PrintsAmong v l
  unfolding prints_among
  prints_among-PrintsAmong v [] = (λ e. absurd (cc), λ h. absurd h)
  prints_among-PrintsAmong v (item ∷ rest) =
      let below = prints_among-PrintsAmong v rest in
      let same = string_eq.same_iff (lib.sprint v) (lib.sprint item) in
      (
        λ e. elim (Bool-cases (lib.sprint v == lib.sprint item)) [
          | inl b ↦ inl (same.0 b)
          | inr b ↦ inr (below.0 (ground (arith, e, b)))
        ],
        λ h. elim h [ inl p ↦ ground (arith, same.1 p) | inr p ↦ ground (arith, below.1 p) ],
      )

  pub items_failure-PrintsAmong :
      (key : String) (options l : List (Value F))
      → (items_failure lib key options l ≡ none) ↔ All (λ item. PrintsAmong item options) l
  unfolding items_failure
  items_failure-PrintsAmong key options [] = (λ e. tt, λ h. refl)
  items_failure-PrintsAmong key options (item ∷ rest) =
      let p = prints_among-PrintsAmong item options in
      let below = items_failure-PrintsAmong key options rest in
      elim (Bool-cases (prints_among lib item options)) [
        | inl b ↦
            (λ e. (p.0 b, below.0 (ground (arith, b, e))), λ h. ground (arith, b, below.1 h.1))
        | inr b ↦ (λ e. absurd (ground (arith, b, e)), λ h. absurd (ground (arith, b, p.1 h.0)))
      ]

  -- Each item of a multiselect, and the value of a select or a radio, is an option, if there are any.
  abbrev pub ChoosesBy : Bool → Bool → List (Value F) → Value F → Type 0
  ChoosesBy false multi options v = Unit
  ChoosesBy true true options v = All (λ item. PrintsAmong item options) (list_items lib v)
  ChoosesBy true false options v = PrintsAmong v options

  abbrev pub Chooses : Field F → Value F → Type 0
  Chooses f v =
      ChoosesBy (not (no_options f.options) && has_choices f.type) (is_multi f.type) f.options v

  pub validate_options-Chooses :
      (f : Field F) (v : Value F)
      → ((if not (no_options f.options) && has_choices f.type
            then validate_options lib f v
            else none)
          ≡ none)
        ↔ Chooses f v
  unfolding validate_options
  validate_options-Chooses f v =
      let p = prints_among-PrintsAmong v f.options in
      let q = items_failure-PrintsAmong f.key f.options (list_items lib v) in
      elim (Bool-cases (not (no_options f.options) && has_choices f.type)) [
        | inr e ↦ rw e (λ g. tt, λ h. refl)
        | inl e ↦ elim (Bool-cases (is_multi f.type)) [
          | inl m ↦ rw (e, m) q
          | inr m ↦
              rw (e, m)
                (elim (Bool-cases (prints_among lib v f.options)) [
                  | inl b ↦ (λ g. p.0 b, λ h. ground (arith, b))
                  | inr b ↦
                      (λ g. absurd (ground (arith, b, g)), λ h. absurd (ground (arith, b, p.1 h)))
                ])
        ]
      ]
