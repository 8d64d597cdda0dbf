-- ===== src/Ai/Tests.antt =====
-- Runs of the budget and of the matching of names, and the theorems at concrete inputs.
use shellcn.Prelude.{◌≡◌, refl, true, false, [], ◌∷◌}
use shellcn.Prelude.Int.{pos, min_ℤ, max_ℤ, ◌+ℤ◌, ◌-ℤ◌}
use shellcn.Ai.Budget.{Limits, overhead, resolve_output_tokens, history_budget, estimate}
use shellcn.Prelude.Bytes.{Bytes}
use shellcn.Ai.Match.{
  bytes_eq, is_letter, is_digit, insert_dash_letter_digit, digit_dash_digit_to_dot, is_match,
}

abbrev window_128k : Limits
window_128k = record { context_window = pos 128000; max_output = pos 4096 }

history_budget_128k : history_budget window_128k (pos 1000) (pos 500) ≡ pos 121892
unfolding history_budget overhead resolve_output_tokens max_ℤ min_ℤ ◌-ℤ◌ ◌+ℤ◌
history_budget_128k = refl

estimate_two_words : estimate (false ∷ false ∷ true ∷ false ∷ []) ≡ 3
unfolding estimate
estimate_two_words = refl

-- "gpt4" and "gpt4-o".
abbrev gpt4 : Bytes
gpt4 = b'g' ∷ b'p' ∷ b't' ∷ b'4' ∷ []

abbrev gpt4_o : Bytes
gpt4_o = b'g' ∷ b'p' ∷ b't' ∷ b'4' ∷ b'-' ∷ b'o' ∷ []

insert_dash_gpt4 : insert_dash_letter_digit gpt4 ≡ b'g' ∷ b'p' ∷ b't' ∷ b'-' ∷ b'4' ∷ []
unfolding insert_dash_letter_digit is_letter is_digit
insert_dash_gpt4 = refl

dots_in_versions :
    digit_dash_digit_to_dot (b'3' ∷ b'-' ∷ b'5' ∷ b'-' ∷ b'1' ∷ [])
    ≡ b'3' ∷ b'.' ∷ b'5' ∷ b'.' ∷ b'1' ∷ []
unfolding digit_dash_digit_to_dot is_digit
dots_in_versions = refl

is_match-gpt4 : is_match gpt4_o gpt4 ≡ true
unfolding is_match
is_match-gpt4 = refl
