-- ===== src/Plugin/Validate/Bounds.antt =====
-- What the bounds and the patterns of validators ask of a value.
use shellcn.Prelude.{
  ◌≡◌, refl, ap, inl, inr, ◌↔◌, String, Bool, true, false, Option, none, some, arith, string_eq,
  Option-cases,
}
use mathlib.Core.Path.{subst}
use shellcn.Plugin.Values.{Value, text, Library, number_value}
use shellcn.Plugin.Validate.{
  is_below, is_above, text_length, min_fails, max_fails, mismatches, regex_failure,
}

module _ {F : Type 0} (lib : Library F) where
  -- Below or above a bound: a number by itself, a text by its length.
  abbrev pub HoldsBound : (F → F → Type 0) → Value F → Value F → Type 0
  HoldsBound ok w v =
      (m : F)
      → number_value lib w ≡ some m
      → ((n : F) → number_value lib v ≡ some n → ok n m)
        × ((s : String) → v ≡ text s → ok (lib.of_int (lib.byte_length s)) m)

  pub text_length-text :
      (P : F → Type 0) (v : Value F)
      → ((x : F) → text_length lib v ≡ some x → P x)
        ↔ ((s : String) → v ≡ text s → P (lib.of_int (lib.byte_length s)))
  text_length-text P (text s) = (
    λ h t e. h (lib.of_int (lib.byte_length t)) (ground (arith, e)),
    λ h x e. subst P (ground (arith, e)) (h s refl),
  )
  text_length-text P v = (λ h s e. absurd (cc), λ h x e. absurd (cc))

  pub is_below-some :
      (o : Option F) (m : F)
      → (is_below lib o m ≡ false) ↔ ((n : F) → o ≡ some n → lib.less n m ≡ false)
  is_below-some none m = (λ e n h. absurd (cc), λ h. refl)
  is_below-some (some x) m = (λ e n h. ground (arith, e, h), λ h. h x refl)

  pub is_above-some :
      (o : Option F) (m : F)
      → (is_above lib o m ≡ false) ↔ ((n : F) → o ≡ some n → lib.less m n ≡ false)
  is_above-some none m = (λ e n h. absurd (cc), λ h. refl)
  is_above-some (some x) m = (λ e n h. ground (arith, e, h), λ h. h x refl)

  pub min_fails-HoldsBound :
      (w v : Value F)
      → (min_fails lib (number_value lib w) v ≡ false)
        ↔ HoldsBound (λ n m. lib.less n m ≡ false) w v
  min_fails-HoldsBound w v = elim (Option-cases (number_value lib w)) [
    | inl e ↦ (λ f m g. absurd (ground (arith, e, g)), λ h. ground (arith, e))
    | inr (x, e) ↦
        let number = is_below-some (number_value lib v) x in
        let length = is_below-some (text_length lib v) x in
        let texts = text_length-text (λ n. lib.less n x ≡ false) v in
        (
          λ f m g.
              let same : x ≡ m = ground (arith, e, g) in
              subst
                (λ m.
                  ((n : F) → number_value lib v ≡ some n → lib.less n m ≡ false)
                  × ((s : String)
                      → v ≡ text s
                      → lib.less (lib.of_int (lib.byte_length s)) m ≡ false))
                same (number.0 (ground (arith, e, f)), texts.0 (length.0 (ground (arith, e, f)))),
          λ h. ground (arith, e, number.1 (h x e).0, length.1 (texts.1 (h x e).1)),
        )
  ]

  pub max_fails-HoldsBound :
      (w v : Value F)
      → (max_fails lib (number_value lib w) v ≡ false)
        ↔ HoldsBound (λ n m. lib.less m n ≡ false) w v
  max_fails-HoldsBound w v = elim (Option-cases (number_value lib w)) [
    | inl e ↦ (λ f m g. absurd (ground (arith, e, g)), λ h. ground (arith, e))
    | inr (x, e) ↦
        let number = is_above-some (number_value lib v) x in
        let length = is_above-some (text_length lib v) x in
        let texts = text_length-text (λ n. lib.less x n ≡ false) v in
        (
          λ f m g.
              let same : x ≡ m = ground (arith, e, g) in
              subst
                (λ m.
                  ((n : F) → number_value lib v ≡ some n → lib.less m n ≡ false)
                  × ((s : String)
                      → v ≡ text s
                      → lib.less m (lib.of_int (lib.byte_length s)) ≡ false))
                same (number.0 (ground (arith, e, f)), texts.0 (length.0 (ground (arith, e, f)))),
          λ h. ground (arith, e, number.1 (h x e).0, length.1 (texts.1 (h x e).1)),
        )
  ]

  pub mismatches-text :
      (re : String → Bool) (v : Value F)
      → (mismatches lib re v ≡ false) ↔ ((s : String) × (v ≡ text s) × (re s ≡ true))
  mismatches-text re (text s) = (
    λ e. (s, refl, ground (arith, e)),
    λ h. let same : h.0 ≡ s = ground (arith, h.1) in ground (arith, h.2, ap re same),
  )
  mismatches-text re v = (λ e. absurd (cc), λ h. absurd (ground (arith, h.1)))

  pub regex_failure-none :
      (key msg : String) (compiled : Option (String → Bool)) (v : Value F)
      → (regex_failure lib key msg compiled v ≡ none) ↔ (
          (re : String → Bool) × (s : String) × (compiled ≡ some re) × (v ≡ text s) × (re s ≡ true))
  regex_failure-none key msg none v = (λ e. absurd (cc), λ h. absurd (ground (arith, h.2)))
  regex_failure-none key msg (some re) v =
      let m = mismatches-text re v in
      (
        λ e. let (s, p, q) = m.0 (ground (arith, e)) in (re, s, refl, p, q),
        λ h.
            let same : h.0 ≡ re = ground (arith, h.2) in
            let matched : re h.1 ≡ true = subst (λ (g : String → Bool). g h.1 ≡ true) same h.4 in
            ground (arith, m.1 (h.1, h.3, matched)),
      )
