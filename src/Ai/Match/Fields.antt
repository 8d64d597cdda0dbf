-- ===== src/Ai/Match/Fields.antt =====
-- Which limits the merge takes.
use shellcn.Prelude.{
  ◌≡◌, refl, ◌∙◌, ◌↔◌, true, false, not, ◌||◌, List, [], ◌∷◌, sym, arith, nat_beq_iff, nat_eq,
  if◌then◌else◌,
}
use shellcn.Prelude.Int.{ℤ, pos, negsuc}
use shellcn.Ai.Budget.{Limits}
use shellcn.Ai.Match.{bytes_eq, is_zero, or_later, merge_from, merge_limits}

-- The first field that is not zero, or zero.
abbrev pub first_set : (Limits → ℤ) → List Limits → ℤ
first_set field [] = pos 0
first_set field (l ∷ rest) = if is_zero (field l) then first_set field rest else field l

is_zero-pos : (n : ℤ) → is_zero n ≡ true → n ≡ pos 0
is_zero-pos (pos n) h = ground (arith, nat_beq_iff n 0)
is_zero-pos (negsuc n) h = absurd (cc)

or_later_assoc : (a b c : ℤ) → or_later (or_later a b) c ≡ or_later a (or_later b c)
or_later_assoc a b c = ground arith

or_later_zero : (a : ℤ) → or_later a (pos 0) ≡ a
or_later_zero a = ground (arith, is_zero-pos a)

first_set-or_later :
    (field : Limits → ℤ) (l : Limits) (rest : List Limits)
    → first_set field (l ∷ rest) ≡ or_later (field l) (first_set field rest)
first_set-or_later field l rest = refl

merge_from-window :
    (merged : Limits) (limits : List Limits)
    → (merge_from merged limits).context_window
      ≡ or_later merged.context_window (first_set (λ l. l.context_window) limits)
unfolding merge_from
merge_from-window merged [] = sym (or_later_zero merged.context_window)
merge_from-window merged (l ∷ rest) =
    merge_from-window
      (record {
        context_window = or_later merged.context_window l.context_window;
        max_output = or_later merged.max_output l.max_output;
      })
      rest
    ∙ or_later_assoc merged.context_window l.context_window
        (first_set (λ l'. l'.context_window) rest)

merge_from-output :
    (merged : Limits) (limits : List Limits)
    → (merge_from merged limits).max_output
      ≡ or_later merged.max_output (first_set (λ l. l.max_output) limits)
unfolding merge_from
merge_from-output merged [] = sym (or_later_zero merged.max_output)
merge_from-output merged (l ∷ rest) =
    merge_from-output
      (record {
        context_window = or_later merged.context_window l.context_window;
        max_output = or_later merged.max_output l.max_output;
      })
      rest
    ∙ or_later_assoc merged.max_output l.max_output (first_set (λ l'. l'.max_output) rest)

flag_iff : (a b : ℤ) → ((not (is_zero a) || not (is_zero b)) ≡ false) ↔ ((a ≡ pos 0) × (b ≡ pos 0))
flag_iff a b = (
  λ h. (is_zero-pos a (ground (arith, h)), is_zero-pos b (ground (arith, h))),
  λ (e, f). rw e (rw f refl),
)

-- Each field of the merged limits is the first one that is not zero, and the flag tells whether a
-- field was found.
pub merge_limits_first :
    (limits : List Limits)
    → let merged = (merge_limits limits).0 in
      (merged.context_window ≡ first_set (λ l. l.context_window) limits)
      × (merged.max_output ≡ first_set (λ l. l.max_output) limits)
      × (((merge_limits limits).1 ≡ false)
          ↔ ((merged.context_window ≡ pos 0) × (merged.max_output ≡ pos 0)))
unfolding merge_limits
merge_limits_first limits =
    let merged = merge_from (record { context_window = pos 0; max_output = pos 0 }) limits in
    (
      merge_from-window (record { context_window = pos 0; max_output = pos 0 }) limits,
      merge_from-output (record { context_window = pos 0; max_output = pos 0 }) limits,
      flag_iff merged.context_window merged.max_output,
    )
