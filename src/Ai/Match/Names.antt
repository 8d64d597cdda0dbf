-- ===== src/Ai/Match/Names.antt =====
-- What is left of a list of names, and of the dashes in one.
use shellcn.Prelude.{
  ℕ, ◌≡◌, refl, inl, inr, Bool, true, false, not, ◌&&◌, List, [], ◌∷◌, arith, ◌==◌, nat_eq,
  Bool-cases,
}
use shellcn.Prelude.Distinct.{member, NoRepeats, first_ones-NoRepeats, member-first_ones}
use shellcn.Prelude.Bytes.{Bytes}
use shellcn.Ai.Match.{
  is_letter, is_digit, digit_next, insert_dash_letter_digit, remove_after, remove_dash_letter_digit,
  bytes_eq, is_empty, unique,
}

-- The result holds each text of the input but the empty one, no other, and none of them twice.
pub unique_members :
    (values : List Bytes)
    → NoRepeats (unique values)
      × ((v : Bytes) → member v (unique values) ≡ (not (is_empty v) && member v values))
unfolding unique
unique_members values =
    (first_ones-NoRepeats is_empty [] values, λ v. member-first_ones is_empty [] values v)

-- A dash is not a letter, so taking dashes out before a digit does not see the byte before it.
remove_after-digit :
    (after_letter : Bool) (s : Bytes)
    → digit_next s ≡ true
    → remove_after after_letter s ≡ remove_after false s
unfolding remove_after is_digit
remove_after-digit after_letter [] h = refl
remove_after-digit after_letter (b ∷ rest) h = ground arith

digit_next-insert : (s : Bytes) → digit_next (insert_dash_letter_digit s) ≡ digit_next s
unfolding insert_dash_letter_digit
digit_next-insert [] = refl
digit_next-insert (b ∷ rest) = refl

letter_no_dash : (b : ℕ) → is_letter b ≡ true → (b == b'-') ≡ false
unfolding is_letter
letter_no_dash b h = ground arith

letter_dash : is_letter b'-' ≡ false
unfolding is_letter
letter_dash = refl

remove_after-insert :
    (after_letter : Bool) (s : Bytes)
    → remove_after after_letter (insert_dash_letter_digit s) ≡ remove_after after_letter s
unfolding remove_after insert_dash_letter_digit
remove_after-insert after_letter [] = refl
remove_after-insert after_letter (b ∷ rest) = elim (Bool-cases (is_letter b && digit_next rest)) [
  | inl t ↦
      let d : digit_next rest ≡ true = ground (arith, t) in
      let l : is_letter b ≡ true = ground (arith, t) in
      ground (
        arith,
        letter_no_dash b l,
        letter_dash,
        digit_next-insert rest,
        remove_after-insert false rest,
        remove_after-digit true rest d,
      )
  | inr f ↦ rw f (ground (arith, digit_next-insert rest, remove_after-insert (is_letter b) rest))
]

-- Putting dashes between letters and digits and taking them out again is the same as taking them
-- out of the text itself.
pub remove_dash_letter_digit-insert_dash_letter_digit :
    (s : Bytes) → remove_dash_letter_digit (insert_dash_letter_digit s) ≡ remove_dash_letter_digit s
unfolding remove_dash_letter_digit
remove_dash_letter_digit-insert_dash_letter_digit s = remove_after-insert false s
