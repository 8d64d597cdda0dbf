-- ===== src/Ai/Match/Boundary.antt =====
-- When a name matches a candidate.
use shellcn.Prelude.{
  ℕ, ◌≡◌, refl, ap, ◌∙◌, ◌↔◌, ◌⊎◌, inl, inr, true, false, [], ◌∷◌, ◌++◌, some, sym, Option-cases,
  arith, nat_beq_iff, ◌==◌, nat_eq, Bool-cases,
}
use shellcn.Prelude.Bytes.{Bytes}
use shellcn.Ai.Match.{bytes_eq, after_prefix, at_boundary, is_match}

append_nil : (s : Bytes) → s ++ [] ≡ s
append_nil [] = refl
append_nil (b ∷ s) = ap (λ t. b ∷ t) (append_nil s)

after_prefix-some :
    (name candidate rest : Bytes)
    → (after_prefix name candidate ≡ some rest) ↔ (name ≡ candidate ++ rest)
unfolding after_prefix
after_prefix-some name [] rest = (λ h. ground arith, λ h. ground arith)
after_prefix-some [] (c ∷ candidate) rest = (λ h. absurd (ground arith), λ h. absurd (ground arith))
after_prefix-some (b ∷ name) (c ∷ candidate) rest = (
  λ h. ground (arith, after_prefix-some name candidate rest, nat_beq_iff b c),
  λ h. ground (arith, after_prefix-some name candidate rest, nat_beq_iff b c),
)

-- Nothing follows, or one of `-`, `.` and `:`.
abbrev pub Boundary : Bytes → Type 0
Boundary rest =
    (rest ≡ [])
    ⊎ ((next : ℕ) × (more : Bytes) × (rest ≡ next ∷ more)
        × ((next ≡ b'-') ⊎ ((next ≡ b'.') ⊎ (next ≡ b':'))))

Boundary-of : (rest : Bytes) → at_boundary (some rest) ≡ true → Boundary rest
Boundary-of [] h = inl refl
Boundary-of (n ∷ rest) h =
    inr (n, rest, refl, ground (arith, nat_beq_iff n b'-', nat_beq_iff n b'.', nat_beq_iff n b':'))

at_boundary-of : (rest : Bytes) → Boundary rest → at_boundary (some rest) ≡ true
at_boundary-of rest (inl e) = rw e refl
at_boundary-of rest (inr (n, more, e, inl k)) = rw e (rw k refl)
at_boundary-of rest (inr (n, more, e, inr (inl k))) = rw e (rw k refl)
at_boundary-of rest (inr (n, more, e, inr (inr k))) = rw e (rw k refl)

matches_split :
    (name candidate : Bytes)
    → is_match name candidate ≡ true
    → (rest : Bytes) × (name ≡ candidate ++ rest) × Boundary rest
unfolding is_match
matches_split name candidate h = elim (Bool-cases (name == candidate)) [
  | inl s ↦ ([], (bytes_eq.same_iff name candidate).0 s ∙ sym (append_nil candidate), inl refl)
  | inr s ↦ elim (Option-cases (after_prefix name candidate)) [
    | inl e ↦ absurd (ground (arith, s, e, h))
    | inr (rest, e) ↦ (
      rest,
      (after_prefix-some name candidate rest).0 e,
      Boundary-of rest (ground (arith, s, e, h)),
    )
  ]
]

whole_match : (name candidate : Bytes) → (name == candidate) ≡ true → is_match name candidate ≡ true
unfolding is_match
whole_match name candidate s = rw s refl

prefix_match :
    (name candidate rest : Bytes)
    → (name == candidate) ≡ false
    → after_prefix name candidate ≡ some rest
    → at_boundary (some rest) ≡ true
    → is_match name candidate ≡ true
unfolding is_match
prefix_match name candidate rest s e b = ground (arith, s, e, b)

-- A name matches a candidate exactly when it is the candidate, with nothing behind it or something
-- that begins with `-`, `.` or `:`.
pub is_match_iff :
    (name candidate : Bytes)
    → (is_match name candidate ≡ true)
      ↔ ((rest : Bytes) × (name ≡ candidate ++ rest) × Boundary rest)
is_match_iff name candidate = (
  matches_split name candidate,
  λ (rest, e, b). elim (Bool-cases (name == candidate)) [
    | inl s ↦ whole_match name candidate s
    | inr s ↦
        prefix_match name candidate rest s ((after_prefix-some name candidate rest).1 e)
          (at_boundary-of rest b)
  ],
)
