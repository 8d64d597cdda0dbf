-- ===== src/Ai/Match.antt =====
-- internal/ai/modelreg/match.go: names by which a model is looked up. A text is a list of bytes.
-- The regular expressions and `buildCandidates` are not modelled.
pub mod Fields
pub mod Boundary
pub mod Names
use shellcn.Prelude.{
  ℕ, zero, suc, ◌+◌, ◌≤◌, ◌<◌, ◌≡◌, ◌≢◌, refl, ap, ◌∙◌, ◌↔◌, ◌⊎◌, inl, inr, Bool, true, false, not,
  ◌&&◌, ◌||◌, List, [], ◌∷◌, ◌++◌, Option, none, some, sym, Option-cases, arith, leb, nat_beq,
  nat_beq_iff, ◌==◌, Comparable, nat_eq, beq_refl, if◌then◌else◌, Bool-cases, if_elim,
}
use shellcn.Prelude.Int.{ℤ, pos, negsuc}
use shellcn.Prelude.Distinct.{first_ones}
use shellcn.Prelude.Bytes.{Bytes}
use shellcn.Ai.Budget.{Limits}

unfoldable pub is_letter : ℕ → Bool
is_letter b = (leb b'a' b && leb b b'z') || (leb b'A' b && leb b b'Z')

unfoldable pub is_digit : ℕ → Bool
is_digit b = leb b'0' b && leb b b'9'

-- `i+1 < len(s) && isDigit(s[i+1])`, from what follows s[i].
abbrev pub digit_next : Bytes → Bool
digit_next [] = false
digit_next (b ∷ rest) = is_digit b

unfoldable pub insert_dash_letter_digit : Bytes → Bytes
insert_dash_letter_digit [] = []
insert_dash_letter_digit (b ∷ rest) =
    let out = insert_dash_letter_digit rest in
    b ∷ (if is_letter b && digit_next rest then b'-' ∷ out else out)

-- The loop's body from s[i-1], where there is one.
unfoldable pub remove_after : Bool → Bytes → Bytes
remove_after after_letter [] = []
remove_after after_letter (b ∷ rest) =
    let out = remove_after (is_letter b) rest in
    if b == b'-' && (after_letter && digit_next rest) then out else b ∷ out

unfoldable pub remove_dash_letter_digit : Bytes → Bytes
unfolding remove_after
remove_dash_letter_digit s = remove_after false s

-- The bytes that the loop has replaced are dots, hence no digits before the next one.
unfoldable pub dot_after : Bool → Bytes → Bytes
dot_after after_digit [] = []
dot_after after_digit (b ∷ rest) =
    (if b == b'-' && (after_digit && digit_next rest) then b'.' else b)
    ∷ dot_after (is_digit b) rest

unfoldable pub digit_dash_digit_to_dot : Bytes → Bytes
unfolding dot_after
digit_dash_digit_to_dot s = dot_after false s

abbrev pub bytes_same : Bytes → Bytes → Bool
bytes_same [] [] = true
bytes_same [] (b ∷ t) = false
bytes_same (a ∷ s) [] = false
bytes_same (a ∷ s) (b ∷ t) = nat_beq a b && bytes_same s t

pub bytes_same_iff : (s t : Bytes) → (bytes_same s t ≡ true) ↔ (s ≡ t)
bytes_same_iff [] [] = (λ h. refl, λ h. refl)
bytes_same_iff [] (b ∷ t) = (λ h. absurd (cc), λ h. absurd (cc))
bytes_same_iff (a ∷ s) [] = (λ h. absurd (cc), λ h. absurd (cc))
bytes_same_iff (a ∷ s) (b ∷ t) = (
  λ h. ground (arith, bytes_same_iff s t, nat_beq_iff a b),
  λ h. ground (arith, bytes_same_iff s t, nat_beq_iff a b),
)

instance abbrev pub bytes_eq : Comparable Bytes
bytes_eq = record { same = bytes_same; same_iff = bytes_same_iff }

abbrev pub is_empty : Bytes → Bool
is_empty [] = true
is_empty (b ∷ s) = false

unfoldable pub unique : List Bytes → List Bytes
unfolding first_ones
unique values = first_ones is_empty [] values

-- `strings.HasPrefix`, with what follows the prefix.
unfoldable pub after_prefix : Bytes → Bytes → Option Bytes
after_prefix name [] = some name
after_prefix [] (c ∷ candidate) = none
after_prefix (b ∷ name) (c ∷ candidate) =
    let rest = after_prefix name candidate in if b == c then rest else none

abbrev pub at_boundary : Option Bytes → Bool
at_boundary none = false
at_boundary (some []) = true
at_boundary (some (next ∷ rest)) = next == b'-' || (next == b'.' || next == b':')

unfoldable pub is_match : Bytes → Bytes → Bool
unfolding after_prefix
is_match name candidate =
    if name == candidate then true else at_boundary (after_prefix name candidate)

abbrev pub is_zero : ℤ → Bool
is_zero (pos n) = n == 0
is_zero (negsuc n) = false

abbrev pub or_later : ℤ → ℤ → ℤ
or_later merged later = if is_zero merged then later else merged

unfoldable pub merge_from : Limits → List Limits → Limits
merge_from merged [] = merged
merge_from merged (l ∷ rest) =
    merge_from
      (record {
        context_window = or_later merged.context_window l.context_window;
        max_output = or_later merged.max_output l.max_output;
      })
      rest

unfoldable pub merge_limits : List Limits → Limits × Bool
unfolding merge_from
merge_limits limits =
    let merged = merge_from (record { context_window = pos 0; max_output = pos 0 }) limits in
    (merged, not (is_zero merged.context_window) || not (is_zero merged.max_output))
