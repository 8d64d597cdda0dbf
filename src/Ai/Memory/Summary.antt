-- ===== src/Ai/Memory/Summary.antt =====
-- Which lines the summary of older messages keeps.
use shellcn.Prelude.{
  ℕ, zero, suc, ◌≤◌, ◌<◌, ◌≡◌, refl, sym, ap, ◌∙◌, inl, inr, List, [], ◌∷◌, map, length,
  length-append, ltb, leb, Bool-cases, arith,
}
use mathlib.Core.Path.{subst}
use shellcn.Prelude.Bytes.{Bytes, drop, join, join_rest}
use shellcn.Ai.Memory.{
  Formatted, newline, summary_line, next_used, keep_newest, with_header, reversed, build_summary,
}

drop-suc {ℓ} :
    {A : Type ℓ} (n : ℕ) (l : List A) (x : A) (out : List A)
    → drop n l ≡ x ∷ out
    → drop (suc n) l ≡ out
drop-suc zero [] x out e = absurd (cc)
drop-suc zero (y ∷ l) x out e = ground (arith, e)
drop-suc (suc n) [] x out e = absurd (cc)
drop-suc (suc n) (y ∷ l) x out e = drop-suc n l x out e

drop-reversed {ℓ} : {A : Type ℓ} (l out : List A) → drop (length l) (reversed l out) ≡ out
unfolding reversed
drop-reversed [] out = refl
drop-reversed (x ∷ l) out =
    drop-suc (length l) (reversed l (x ∷ out)) x out (drop-reversed l (x ∷ out))

reversed-reversed {ℓ} :
    {A : Type ℓ} (l out : List A) → reversed (reversed l out) [] ≡ reversed out l
unfolding reversed
reversed-reversed [] out = refl
reversed-reversed (x ∷ l) out = reversed-reversed l (x ∷ out)

abbrev size : List Bytes → ℕ
size lines = length (join newline lines)

size-cons :
    (line : Bytes) (kept : List Bytes) → size (line ∷ kept) ≡ next_used (size kept) line kept
size-cons line [] = omega (arith, length-append line [])
size-cons line (l ∷ kept) = omega (arith, length-append line (join_rest newline (l ∷ kept)))

-- The newest lines that fit, where `dropped` older ones do not.
pub record Newest (budget : ℕ) (lines kept : List Bytes) (dropped : ℕ) : Type 0 where
  pub suffix : kept ≡ drop dropped lines
  pub fits : size kept ≤ budget
  pub most : (d : ℕ) → dropped ≡ suc d → budget < size (drop d lines)

keep_newest_lem :
    (budget : ℕ) (older : List Bytes) (used : ℕ) (kept : List Bytes)
    → used ≡ size kept
    → size kept ≤ budget
    → Newest budget
        (reversed older kept)
        (keep_newest budget older used kept).0
        (keep_newest budget older used kept).1
unfolding keep_newest reversed
keep_newest_lem budget [] used kept e small = record {
  suffix = refl;
  fits = small;
  most = λ d f. absurd (cc);
}
keep_newest_lem budget (line ∷ older) used kept e small =
    let grown = size-cons line kept in
    let next = next_used used line kept in
    let total = ap (λ (u : ℕ). next_used u line kept) e ∙ sym grown in
    elim (Bool-cases (ltb budget next)) [
      | inl over ↦ rw over (record {
        suffix = sym (drop-reversed (line ∷ older) kept);
        fits = small;
        most = λ d f.
            subst (λ (k : ℕ). budget < size (drop k (reversed older (line ∷ kept))))
              (ground (arith, f))
              (subst (λ (l : List Bytes). budget < size l) (sym (drop-reversed older (line ∷ kept)))
                (ground (arith, total, over)));
      })
      | inr fits ↦
          rw fits
            (keep_newest_lem budget older next (line ∷ kept) total (ground (arith, total, fits)))
    ]

-- The summary is the newest lines that fit the budget, one for each message, after a line that says
-- how many older ones are missing, where some are. One line more would not fit.
pub build_summary_lem :
    (messages : List Formatted) (budget : ℕ)
    → (kept : List Bytes) × (dropped : ℕ) × Newest budget (map summary_line messages) kept dropped
      × (build_summary messages budget ≡ join newline (with_header (kept, dropped)))
unfolding build_summary reversed
build_summary_lem messages budget =
    let lines = map summary_line messages in
    elim (Bool-cases (leb (length (join newline lines)) budget)) [
      | inl fits ↦ (
        lines,
        0,
        record { suffix = refl; fits = ground (arith, fits); most = λ d f. absurd (cc) },
        rw fits refl,
      )
      | inr over ↦
          let r = keep_newest budget (reversed lines []) 0 [] in
          (
            r.0,
            r.1,
            subst (λ (l : List Bytes). Newest budget l r.0 r.1) (reversed-reversed lines [])
                (keep_newest_lem budget (reversed lines []) 0 [] refl (omega arith)),
            rw over refl,
          )
    ]
