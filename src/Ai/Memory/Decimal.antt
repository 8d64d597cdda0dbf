-- ===== src/Ai/Memory/Decimal.antt =====
-- `itoa` against reading a decimal number.
use shellcn.Prelude.{
  ℕ, zero, suc, ◌+◌, ◌-◌, ◌*◌, ◌/◌, ◌%◌, ◌≤◌, ◌≡◌, ap, ◌∙◌, inl, inr, [], ◌∷◌, ◌==◌, nat_eq,
  Bool-cases, arith,
}
use shellcn.Prelude.Bytes.{Bytes}
use shellcn.Ai.Memory.{digits_from, itoa}

-- The number that digits say after `n`.
abbrev pub read_decimal : ℕ → Bytes → ℕ
read_decimal n [] = n
read_decimal n (b ∷ s) = read_decimal (n * 10 + (b - b'0')) s

digits_from_lem :
    (fuel n : ℕ) (out : Bytes)
    → n ≤ fuel
    → read_decimal 0 (digits_from fuel n out) ≡ read_decimal n out
unfolding digits_from
digits_from_lem zero n out h = ap (λ (k : ℕ). read_decimal k out) (omega (arith, h))
digits_from_lem (suc fuel) n out h =
    let ih = digits_from_lem fuel (n / 10) ((b'0' + n % 10) ∷ out) (omega (arith, h)) in
    elim (Bool-cases (n == 0)) [
      | inl e ↦ rw e (ap (λ (k : ℕ). read_decimal k out) (ground (arith, e)))
      | inr e ↦ rw e (ih ∙ ap (λ (k : ℕ). read_decimal k out) (omega arith))
    ]

-- The digits that are printed for a number read as that number; so the number of rounds is enough.
pub read-itoa : (n : ℕ) → read_decimal 0 (itoa n) ≡ n
unfolding itoa
read-itoa n = elim (Bool-cases (n == 0)) [
  | inl e ↦ rw e (ground (arith, e))
  | inr e ↦ rw e (digits_from_lem n n [] (omega arith))
]
