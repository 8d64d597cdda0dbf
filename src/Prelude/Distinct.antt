-- ===== src/Prelude/Distinct.antt =====
-- The loop over a list with a map of what it has seen: it keeps the first of equal elements, and
-- none that `skip` names.
use shellcn.Prelude.{
  ◌≡◌, refl, ap, Bool, false, not, ◌&&◌, ◌||◌, List, [], ◌∷◌, arith, Comparable, ◌==◌, beq_refl,
  inl, inr, if◌then◌else◌, Bool-cases, if_elim,
}

module _ {ℓ} {A : Type ℓ} ⦃c : Comparable A⦄ where
  -- The elements that the map holds true for.
  abbrev pub member : A → List A → Bool
  member v [] = false
  member v (w ∷ seen) = v == w || member v seen

  abbrev pub NoRepeats : List A → Type 0
  NoRepeats [] = Unit
  NoRepeats (v ∷ values) = (member v values ≡ false) × NoRepeats values

  -- What no element of the list is.
  abbrev pub NoneIs : (A → Bool) → List A → Type 0
  NoneIs skip [] = Unit
  NoneIs skip (v ∷ values) = (skip v ≡ false) × NoneIs skip values

  unfoldable pub first_ones : (A → Bool) → List A → List A → List A
  first_ones skip seen [] = []
  first_ones skip seen (v ∷ values) =
      let skipped = first_ones skip seen values in
      let taken = first_ones skip (v ∷ seen) values in
      if skip v || member v seen then skipped else v ∷ taken

  pub member-first_ones :
      (skip : A → Bool) (seen values : List A) (v : A)
      → member v (first_ones skip seen values)
        ≡ (not (skip v) && (not (member v seen) && member v values))
  unfolding first_ones
  member-first_ones skip seen [] v = ground arith
  member-first_ones skip seen (w ∷ values) v = elim (Bool-cases (v == w)) [
    | inl e ↦
        let p = (c.same_iff v w).0 e in
        ground (
          arith,
          e,
          ap skip p,
          ap (λ (t : A). member t seen) p,
          member-first_ones skip seen values v,
        )
    | inr e ↦
        ground (
          arith,
          e,
          member-first_ones skip seen values v,
          member-first_ones skip (w ∷ seen) values v,
        )
  ]

  pub first_ones-NoRepeats :
      (skip : A → Bool) (seen values : List A) → NoRepeats (first_ones skip seen values)
  unfolding first_ones
  first_ones-NoRepeats skip seen [] = tt
  first_ones-NoRepeats skip seen (v ∷ values) =
      if_elim NoRepeats (skip v || member v seen) (first_ones skip seen values)
        (v ∷ first_ones skip (v ∷ seen) values) (λ t. first_ones-NoRepeats skip seen values)
        (λ f. (
          ground (arith, beq_refl v, member-first_ones skip (v ∷ seen) values v),
          first_ones-NoRepeats skip (v ∷ seen) values,
        ))

  pub first_ones-NoneIs :
      (skip : A → Bool) (seen values : List A) → NoneIs skip (first_ones skip seen values)
  unfolding first_ones
  first_ones-NoneIs skip seen [] = tt
  first_ones-NoneIs skip seen (v ∷ values) =
      if_elim (NoneIs skip) (skip v || member v seen) (first_ones skip seen values)
        (v ∷ first_ones skip (v ∷ seen) values) (λ t. first_ones-NoneIs skip seen values)
        (λ f. (ground (arith, f), first_ones-NoneIs skip (v ∷ seen) values))

  -- No element of the second list is in the first.
  abbrev pub Apart : List A → List A → Type 0
  Apart seen [] = Unit
  Apart seen (v ∷ values) = (member v seen ≡ false) × Apart seen values

  Apart-cons :
      (v : A) (seen values : List A)
      → member v values ≡ false
      → Apart seen values
      → Apart (v ∷ seen) values
  Apart-cons v seen [] h a = tt
  Apart-cons v seen (w ∷ values) h a = (
    ground (arith, c.same_iff w v, c.same_iff v w, h, a.0),
    Apart-cons v seen values (ground (arith, h)) a.1,
  )

  Apart-nil : (values : List A) → Apart [] values
  Apart-nil [] = tt
  Apart-nil (v ∷ values) = (refl, Apart-nil values)

  first_ones-kept :
      (skip : A → Bool) (seen values : List A)
      → NoRepeats values
      → NoneIs skip values
      → Apart seen values
      → first_ones skip seen values ≡ values
  unfolding first_ones
  first_ones-kept skip seen [] r n a = refl
  first_ones-kept skip seen (v ∷ values) r n a =
      let rest =
        first_ones-kept skip (v ∷ seen) values r.1 n.1 (Apart-cons v seen values r.0 a.1) in
      ground (arith, rest, n.0, a.0)

  -- A list with no repeats is kept as it is.
  pub first_ones_id :
      (skip : A → Bool) (values : List A)
      → NoRepeats values
      → NoneIs skip values
      → first_ones skip [] values ≡ values
  first_ones_id skip values r n = first_ones-kept skip [] values r n (Apart-nil values)
