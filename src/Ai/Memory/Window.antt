-- ===== src/Ai/Memory/Window.antt =====
-- Which messages a turn gets as they are.
use shellcn.Prelude.{
  ℕ, zero, suc, ◌-◌, ◌*◌, ◌≤◌, ◌<◌, ◌≡◌, refl, ap, ◌⊎◌, inl, inr, Bool, List, [], ◌∷◌, map, length,
  ltb, Bool-cases, arith,
}
use mathlib.Core.Path.{subst}
use shellcn.Prelude.Bytes.{Bytes, take, drop}
use shellcn.Ai.Memory.{
  Message, Formatted, min_kept_turns, summary_char_budget, tokens, total_of, split_from,
  split_index, format_full, compacted, build_summary, spoken, split_by_token_budget,
}

module _ (normalize_whitespace : Bytes → Bytes) (space_marks : Bytes → List Bool) where
  -- The split that moves as few messages as it can, and at most `room`, for the rest to fit.
  pub record Split (budget room : ℕ) (full : List Formatted) (i : ℕ) : Type 0 where
    pub within : i ≤ room
    pub fits : (total_of normalize_whitespace space_marks (drop i full) ≤ budget) ⊎ (i ≡ room)
    pub least : (j : ℕ) → j < i → budget < total_of normalize_whitespace space_marks (drop j full)

  Split-later :
      (budget room i : ℕ) (f : Formatted) (full : List Formatted)
      → budget < total_of normalize_whitespace space_marks (f ∷ full)
      → Split budget room full i
      → Split budget (suc room) (f ∷ full) (suc i)
  Split-later budget room i f full over s = record {
    within = omega (arith, s.within);
    fits = elim s.fits [ inl e ↦ inl e | inr e ↦ inr (ap suc e) ];
    least = least_later;
  }
    where
      least_later :
          (j : ℕ)
          → j < suc i
          → budget < total_of normalize_whitespace space_marks (drop j (f ∷ full))
      least_later zero h = over
      least_later (suc j) h = s.least j (omega (arith, h))

  Split-now :
      (budget room : ℕ) (full : List Formatted)
      → (total_of normalize_whitespace space_marks full ≤ budget) ⊎ (0 ≡ room)
      → Split budget room full 0
  Split-now budget room full h = record {
    within = omega arith;
    fits = h;
    least = λ j less. absurd (omega (arith, less));
  }

  split_from_lem :
      (budget room total : ℕ) (full : List Formatted)
      → total ≡ total_of normalize_whitespace space_marks full
      → Split budget room full (split_from normalize_whitespace space_marks budget room full total)
  unfolding split_from total_of
  split_from_lem budget zero total full e = Split-now budget zero full (inr refl)
  split_from_lem budget (suc room) total [] e = Split-now budget (suc room) [] (inl (omega arith))
  split_from_lem budget (suc room) total (f ∷ full) e =
      let t = tokens normalize_whitespace space_marks f in
      let ih = split_from_lem budget room (total - t) full (omega (arith, e)) in
      elim (Bool-cases (ltb budget total)) [
        | inl over ↦ rw over (
            Split-later budget room
              (split_from normalize_whitespace space_marks budget room full (total - t)) f full
              (ground (arith, e, over)) ih)
        | inr fits ↦
            rw fits (Split-now budget (suc room) (f ∷ full) (inl (ground (arith, e, fits))))
      ]

length-map : {A : Type 0} {B : Type 0} (f : A → B) (l : List A) → length (map f l) ≡ length l
length-map f [] = refl
length-map f (x ∷ l) = ap suc (length-map f l)

drop-map :
    {A : Type 0} {B : Type 0} (f : A → B) (n : ℕ) (l : List A) → drop n (map f l) ≡ map f (drop n l)
drop-map f zero l = refl
drop-map f (suc n) [] = refl
drop-map f (suc n) (x ∷ l) = drop-map f n l

module _ (normalize_whitespace : Bytes → Bytes) (space_marks : Bytes → List Bool) where
  -- The messages of a turn are those after a split, in their order and without those that come to
  -- nothing, and a summary of those before it. The split leaves at least eight messages, or all; it
  -- leaves more than eight only if they fit the budget; and no earlier split would fit.
  pub split_by_token_budget_lem :
      (messages : List Message) (budget : ℕ)
      → let full = map (format_full normalize_whitespace space_marks) messages in
        (i : ℕ) × Split normalize_whitespace space_marks budget
          (length messages - min_kept_turns * 2)
          full
          i
        × (split_by_token_budget normalize_whitespace space_marks messages budget ≡ (
          build_summary
              (map (compacted normalize_whitespace space_marks) (take i messages))
              summary_char_budget,
          spoken normalize_whitespace space_marks
              (map (format_full normalize_whitespace space_marks) (drop i messages)),
        ))
  unfolding split_by_token_budget split_index
  split_by_token_budget_lem messages budget =
      let format = format_full normalize_whitespace space_marks in
      let full = map format messages in
      let i = split_index normalize_whitespace space_marks budget full in
      (
        i,
        subst
            (λ (n : ℕ).
              Split normalize_whitespace space_marks budget (n - min_kept_turns * 2) full i)
            (length-map format messages)
            (split_from_lem normalize_whitespace space_marks budget
              (length full - min_kept_turns * 2) (total_of normalize_whitespace space_marks full)
              full refl),
        ap
            (λ (l : List Formatted). (
              build_summary (map (compacted normalize_whitespace space_marks) (take i messages))
                  summary_char_budget,
              spoken normalize_whitespace space_marks l,
            ))
            (drop-map format i messages),
      )
