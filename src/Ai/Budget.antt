-- ===== src/Ai/Budget.antt =====
-- internal/ai/budget/budget.go: how a turn's tokens are divided. `int` is an integer; its overflow
-- is not modelled. `Estimate` takes the characters of a text, each marked as a space or not.
use shellcn.Prelude.{
  ℕ, ◌+◌, ◌-◌, ◌*◌, ◌/◌, Bool, false, not, List, [], ◌∷◌, arith, ltb, ◌==◌, nat_eq, if◌then◌else◌,
  length, if_elim,
}
use shellcn.Prelude.Int.{ℤ, pos, negsuc, ◌+ℤ◌, ◌-ℤ◌, ◌≤ℤ◌, ltb_ℤ, min_ℤ, max_ℤ, +ℤ_parts, -ℤ_parts}

abbrev pub safety_margin : ℤ
safety_margin = pos 512

abbrev pub default_history_budget : ℤ
default_history_budget = pos 32000

abbrev pub min_history_budget : ℤ
min_history_budget = pos 4000

abbrev pub max_history_budget : ℤ
max_history_budget = pos 200000

abbrev pub max_output_tokens : ℤ
max_output_tokens = pos 8192

abbrev pub min_output_tokens : ℤ
min_output_tokens = pos 2048

pub record Limits : Type 0 where
  pub context_window : ℤ
  pub max_output : ℤ

unfoldable pub overhead : ℤ → ℤ → ℤ
overhead system_tokens tool_tokens = system_tokens +ℤ tool_tokens +ℤ safety_margin

-- `n > 0`
abbrev pub is_positive : ℤ → Bool
is_positive n = ltb_ℤ (pos 0) n

-- What is reserved when the window is known and `available` tokens are left for output.
unfoldable pub resolved_tokens : ℤ → ℤ
resolved_tokens available =
    if ltb_ℤ available max_output_tokens
    then max_ℤ min_output_tokens available
    else max_output_tokens

-- `ResolveOutputTokens` from the window, the model's output limit and what is available.
unfoldable pub resolve_from : ℤ → ℤ → ℤ → ℤ
unfolding resolved_tokens
resolve_from window max_output available =
    let cap_tok = max_ℤ (pos 0) max_output in
    let resolved = resolved_tokens available in
    if is_positive window
    then (if is_positive cap_tok then max_ℤ (pos 1) (min_ℤ resolved cap_tok) else resolved)
    else (if is_positive cap_tok then min_ℤ max_output_tokens cap_tok else max_output_tokens)

unfoldable pub resolve_output_tokens : Limits → ℤ → ℤ → ℤ
unfolding resolve_from overhead
resolve_output_tokens limits system_tokens tool_tokens =
    resolve_from limits.context_window limits.max_output
      (limits.context_window -ℤ overhead system_tokens tool_tokens -ℤ min_history_budget)

-- The final clamp of `HistoryBudget`.
unfoldable pub clamp_budget : ℤ → ℤ
clamp_budget b = max_ℤ min_history_budget (min_ℤ b max_history_budget)

unfoldable pub history_budget : Limits → ℤ → ℤ → ℤ
unfolding clamp_budget
history_budget limits system_tokens tool_tokens =
    if is_positive limits.context_window
    then clamp_budget (
        limits.context_window
        -ℤ overhead system_tokens tool_tokens
        -ℤ resolve_output_tokens limits system_tokens tool_tokens)
    else default_history_budget

-- `strings.FieldsFunc`: the runs of characters that are no spaces.
unfoldable pub count_fields : Bool → List Bool → ℕ
count_fields in_field [] = if in_field then 1 else 0
count_fields in_field (is_space ∷ rest) =
    (if in_field then (if is_space then 1 else 0) else 0) + count_fields (not is_space) rest

-- `Estimate` from the numbers of characters and of words.
unfoldable pub blend : ℕ → ℕ → ℕ
blend chars words =
    let by_chars = (chars + 4 - 1) / 4 in
    let by_words = (words * 4 + 2) / 3 in
    if ltb by_chars by_words then by_words else if by_chars == 0 then 1 else by_chars

unfoldable pub estimate : List Bool → ℕ
unfolding blend count_fields
estimate [] = 0
estimate (c ∷ rest) = blend (length (c ∷ rest)) (count_fields false (c ∷ rest))

abbrev Capped : ℤ → ℤ → Type 0
Capped max_output out =
    (pos 1 ≤ℤ out) × (out ≤ℤ max_output_tokens) × (pos 1 ≤ℤ max_output → out ≤ℤ max_output)

resolve_from-Capped :
    (window max_output available : ℤ) → Capped max_output (resolve_from window max_output available)
unfolding resolve_from max_ℤ min_ℤ
resolve_from-Capped window (pos c) (pos n) = ground arith
resolve_from-Capped window (pos c) (negsuc n) = ground arith
resolve_from-Capped window (negsuc c) (pos n) = ground arith
resolve_from-Capped window (negsuc c) (negsuc n) = ground arith

resolve_from-le :
    (window max_output available : ℤ)
    → pos 1 ≤ℤ window
    → min_output_tokens ≤ℤ available
    → resolve_from window max_output available ≤ℤ available
unfolding resolve_from max_ℤ min_ℤ
resolve_from-le (pos w) (pos c) (pos n) h k = ground arith
resolve_from-le (pos w) (negsuc c) (pos n) h k = ground arith
resolve_from-le (pos w) c (negsuc n) h k = absurd (omega arith)
resolve_from-le (negsuc w) c a h k = absurd (omega arith)

clamp_budget_bounds :
    (b : ℤ) → (min_history_budget ≤ℤ clamp_budget b) × (clamp_budget b ≤ℤ max_history_budget)
unfolding clamp_budget max_ℤ min_ℤ
clamp_budget_bounds (pos n) = ground arith
clamp_budget_bounds (negsuc n) = ground arith

clamp_budget-le : (b : ℤ) → min_history_budget ≤ℤ b → clamp_budget b ≤ℤ b
unfolding clamp_budget max_ℤ min_ℤ
clamp_budget-le (pos n) h = ground arith
clamp_budget-le (negsuc n) h = absurd (omega arith)

-- The final clamp takes no more than is left of the window `w` after the overhead `o` and the output.
clamp_fits :
    (w o max_output : ℤ)
    → pos 1 ≤ℤ w
    → o +ℤ pos 6048 ≤ℤ w
    → let out = resolve_from w max_output (w -ℤ o -ℤ min_history_budget) in
      clamp_budget (w -ℤ o -ℤ out) +ℤ out +ℤ o ≤ℤ w
clamp_fits w o max_output h k =
    let available = w -ℤ o -ℤ min_history_budget in
    let out = resolve_from w max_output available in
    let left = w -ℤ o -ℤ out in
    let p = -ℤ_parts w o in
    let q = -ℤ_parts (w -ℤ o) min_history_budget in
    let r = +ℤ_parts o (pos 6048) in
    let u = -ℤ_parts (w -ℤ o) out in
    let le = resolve_from-le w max_output available h (omega (arith, p, q, r, k)) in
    let fit = clamp_budget-le left (omega (arith, q, u, le)) in
    omega
      (arith, fit, p, u, +ℤ_parts (clamp_budget left) out, +ℤ_parts (clamp_budget left +ℤ out) o)

-- The output that is reserved lies between one token and the cap of 8192, whatever the model's
-- limits and the turn's overhead, and within the model's own limit where that is known.
pub resolve_output_tokens_bounds :
    (limits : Limits) (system_tokens tool_tokens : ℤ)
    → let out = resolve_output_tokens limits system_tokens tool_tokens in
      (pos 1 ≤ℤ out)
      × (out ≤ℤ max_output_tokens)
      × (pos 1 ≤ℤ limits.max_output → out ≤ℤ limits.max_output)
unfolding resolve_output_tokens
resolve_output_tokens_bounds limits system_tokens tool_tokens =
    resolve_from-Capped limits.context_window limits.max_output
      (limits.context_window -ℤ overhead system_tokens tool_tokens -ℤ min_history_budget)

-- The history budget lies between 4000 and 200000 tokens, and where the window holds the overhead,
-- the least history and the least output, then history, output and overhead fit the window.
pub history_budget_fits :
    (limits : Limits) (system_tokens tool_tokens : ℤ)
    → let out = resolve_output_tokens limits system_tokens tool_tokens in
      let budget = history_budget limits system_tokens tool_tokens in
      (min_history_budget ≤ℤ budget)
      × (budget ≤ℤ max_history_budget)
      × (pos 1 ≤ℤ limits.context_window
          → overhead system_tokens tool_tokens +ℤ pos 6048 ≤ℤ limits.context_window
          → budget +ℤ out +ℤ overhead system_tokens tool_tokens ≤ℤ limits.context_window)
unfolding history_budget resolve_output_tokens
history_budget_fits limits system_tokens tool_tokens =
    let o = overhead system_tokens tool_tokens in
    let w = limits.context_window in
    let out = resolve_from w limits.max_output (w -ℤ o -ℤ min_history_budget) in
    let b = clamp_budget_bounds (w -ℤ o -ℤ out) in
    let fits = clamp_fits w o limits.max_output in
    if_elim
      (λ (budget : ℤ).
        (min_history_budget ≤ℤ budget)
        × (budget ≤ℤ max_history_budget)
        × (pos 1 ≤ℤ w → o +ℤ pos 6048 ≤ℤ w → budget +ℤ out +ℤ o ≤ℤ w))
      (is_positive w) (clamp_budget (w -ℤ o -ℤ out)) default_history_budget (λ t. (b.0, b.1, fits))
      (λ f. (omega arith, omega arith, λ h k. absurd (ground arith)))
