-- ===== src/Plugin/Condition/Holds.antt =====
-- What a condition means, and that `visible` decides it.
use shellcn.Prelude.{
  ◌≡◌, refl, ◌⊎◌, inl, inr, ◌↔◌, String, true, false, not, ◌&&◌, List, [], ◌∷◌, All, arith,
  Bool-cases,
}
use shellcn.Prelude.Map.{Map}
use shellcn.Plugin.Values.{Value, Library}
use shellcn.Plugin.Condition.{
  Rule, Condition, condition, Conditions, no_conditions, condition_then, Negated, no_condition,
  negated, is_no_rules, is_no_conditions, rule_matches, all_match, any_match, visible, all_visible,
  any_visible, negation_visible,
}

-- Some element.
abbrev pub Some {ℓ} : {A : Type ℓ} → (A → Type 0) → List A → Type 0
Some P [] = ⊥
Some P (x ∷ xs) = P x ⊎ Some P xs

module _ {F : Type 0} (lib : Library F) (values : Map String (Value F)) where
  abbrev pub Matches : Rule F → Type 0
  Matches rule = rule_matches lib values rule ≡ true

  -- No rule of the list matches where the list asks for one.
  abbrev pub SomeAsked : List (Rule F) → Type 0
  SomeAsked [] = Unit
  SomeAsked (r ∷ rules) = Some Matches (r ∷ rules)

  unfoldable mutual
    pub Holds : Condition F → Type 0
    Holds (condition all_of any_of all any negation) =
        All Matches all_of
        × SomeAsked any_of
        × AllHold all
        × SomeHoldsAsked any
        × NegationHolds negation

    pub AllHold : Conditions F → Type 0
    AllHold no_conditions = Unit
    AllHold (condition_then c rest) = Holds c × AllHold rest

    pub SomeHolds : Conditions F → Type 0
    SomeHolds no_conditions = ⊥
    SomeHolds (condition_then c rest) = Holds c ⊎ SomeHolds rest

    pub SomeHoldsAsked : Conditions F → Type 0
    SomeHoldsAsked no_conditions = Unit
    SomeHoldsAsked (condition_then c rest) = Holds c ⊎ SomeHolds rest

    pub NegationHolds : Negated F → Type 0
    NegationHolds no_condition = Unit
    NegationHolds (negated c) = Holds c → ⊥

  all_match-All : (rules : List (Rule F)) → (all_match lib values rules ≡ true) ↔ All Matches rules
  unfolding all_match
  all_match-All [] = (λ e. tt, λ h. refl)
  all_match-All (r ∷ rules) = elim (Bool-cases (rule_matches lib values r)) [
    | inl e ↦ (
      λ f. (e, (all_match-All rules).0 (ground (arith, e, f))),
      λ h. ground (arith, e, (all_match-All rules).1 h.1),
    )
    | inr e ↦ (λ f. absurd (ground (arith, e, f)), λ h. absurd (ground (arith, e, h.0)))
  ]

  any_match-Some :
      (rules : List (Rule F)) → (any_match lib values rules ≡ true) ↔ Some Matches rules
  unfolding any_match
  any_match-Some [] = (λ e. absurd (cc), λ h. absurd h)
  any_match-Some (r ∷ rules) = elim (Bool-cases (rule_matches lib values r)) [
    | inl e ↦ (λ f. inl e, λ h. ground (arith, e))
    | inr e ↦ (
      λ f. inr ((any_match-Some rules).0 (ground (arith, e, f))),
      λ h. elim h [
        | inl m ↦ absurd (ground (arith, e, m))
        | inr s ↦ ground (arith, e, (any_match-Some rules).1 s)
      ],
    )
  ]

  asked-SomeAsked :
      (rules : List (Rule F))
      → ((not (is_no_rules rules) && not (any_match lib values rules)) ≡ false) ↔ SomeAsked rules
  asked-SomeAsked [] = (λ e. tt, λ h. refl)
  asked-SomeAsked (r ∷ rules) = (
    λ e. (any_match-Some (r ∷ rules)).0 (ground (arith, e)),
    λ h. ground (arith, (any_match-Some (r ∷ rules)).1 h),
  )

  mutual
    unfolding Holds AllHold SomeHolds SomeHoldsAsked NegationHolds visible all_visible any_visible
        negation_visible

    pub visible-Holds : (c : Condition F) → (visible lib values c ≡ true) ↔ Holds c
    visible-Holds (condition all_of any_of all any negation) =
        let a = all_match-All all_of in
        let b = asked-SomeAsked any_of in
        let c = all_visible-AllHold all in
        let d = asked-SomeHolds any in
        let e = negation_visible-Holds negation in
        (
          λ v. (
            a.0 (ground (arith, v)),
            b.0 (ground (arith, v)),
            c.0 (ground (arith, v)),
            d.0 (ground (arith, v)),
            e.0 (ground (arith, v)),
          ),
          λ h. ground (arith, a.1 h.0, b.1 h.1, c.1 h.2, d.1 h.3, e.1 h.4),
        )

    all_visible-AllHold : (l : Conditions F) → (all_visible lib values l ≡ true) ↔ AllHold l
    all_visible-AllHold no_conditions = (λ e. tt, λ h. refl)
    all_visible-AllHold (condition_then c rest) =
        let a = visible-Holds c in
        let b = all_visible-AllHold rest in
        (
          λ v. (a.0 (ground (arith, v)), b.0 (ground (arith, v))),
          λ h. ground (arith, a.1 h.0, b.1 h.1),
        )

    any_visible-SomeHolds : (l : Conditions F) → (any_visible lib values l ≡ true) ↔ SomeHolds l
    any_visible-SomeHolds no_conditions = (λ e. absurd (cc), λ h. absurd h)
    any_visible-SomeHolds (condition_then c rest) =
        let a = visible-Holds c in
        let b = any_visible-SomeHolds rest in
        (
          λ v. elim (Bool-cases (visible lib values c)) [
            | inl e ↦ inl (a.0 e)
            | inr e ↦ inr (b.0 (ground (arith, v, e)))
          ],
          λ h. elim h [ inl p ↦ ground (arith, a.1 p) | inr p ↦ ground (arith, b.1 p) ],
        )

    asked-SomeHolds :
        (l : Conditions F)
        → ((not (is_no_conditions l) && not (any_visible lib values l)) ≡ false) ↔ SomeHoldsAsked l
    asked-SomeHolds no_conditions = (λ e. tt, λ h. refl)
    asked-SomeHolds (condition_then c rest) =
        let a = visible-Holds c in
        let b = any_visible-SomeHolds rest in
        (
          λ v. elim (Bool-cases (visible lib values c)) [
            | inl e ↦ inl (a.0 e)
            | inr e ↦ inr (b.0 (ground (arith, v, e)))
          ],
          λ h. elim h [ inl p ↦ ground (arith, a.1 p) | inr p ↦ ground (arith, b.1 p) ],
        )

    negation_visible-Holds :
        (n : Negated F) → (negation_visible lib values n ≡ false) ↔ NegationHolds n
    negation_visible-Holds no_condition = (λ e. tt, λ h. refl)
    negation_visible-Holds (negated c) =
        let a = visible-Holds c in
        (
          λ v h. ground (arith, v, a.1 h),
          λ n. elim (Bool-cases (visible lib values c)) [ inl e ↦ absurd (n (a.0 e)) | inr e ↦ e ],
        )

  -- `visible` says true exactly when every AllOf rule matches, some AnyOf rule does where there are
  -- any, every All condition holds, some Any condition does where there are any, and Not does not.
  pub visible_lem : (c : Condition F) → (visible lib values c ≡ true) ↔ Holds c
  visible_lem c = visible-Holds c
