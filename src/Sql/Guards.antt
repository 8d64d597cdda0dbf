-- ===== src/Sql/Guards.antt =====
-- What the guards of a query let through.
use shellcn.Prelude.{
  ℕ, zero, suc, ◌≤◌, ◌<◌, ◌≡◌, ◌≢◌, refl, inl, inr, String, Bool, true, false, not, ◌&&◌, ◌||◌,
  List, [], ◌∷◌, some, ◌==◌, nat_eq, string_eq, Bool-cases, All, length, arith,
}
use shellcn.Sql.{
  Runes, Text, is_comment, line_after, has_line, first_upper, first_keyword_from, first_keyword,
  split_statements, is_read_only_statement, is_destructive_statement, all_read_only,
  some_destructive, no_statements, execute_from, execute_query_request, executed,
}

and_true : (a b : Bool) → (a && b) ≡ true → (a ≡ true) × (b ≡ true)
and_true a b h = (ground (arith, h), ground (arith, h))

or_false : (a b : Bool) → (a || b) ≡ false → (a ≡ false) × (b ≡ false)
or_false a b h = (ground (arith, h), ground (arith, h))

length-line_after : (s : Runes) → has_line s ≡ true → length (line_after s) < length s
length-line_after [] h = absurd (cc)
length-line_after (r ∷ s) h = elim (Bool-cases (r == 10)) [
  | inl e ↦ rw e (omega arith)
  | inr e ↦ rw e (omega (arith, length-line_after s (ground (arith, h, e))))
]

module _ (t : Text) where
  first_keyword_from_lem :
      ((s : Runes) → length (t.trim_space s) ≤ length s)
      → (fuel : ℕ) (s : Runes) → length s < fuel
      → (k : String) × (first_keyword_from t fuel s ≡ some k)
  unfolding first_keyword_from
  first_keyword_from_lem shorter zero s h = absurd (omega (arith, h))
  first_keyword_from_lem shorter (suc fuel) s h = elim (Bool-cases (is_comment t s)) [
    | inr e ↦ (first_upper t (t.fields s), rw e refl)
    | inl e ↦ elim (Bool-cases (has_line s)) [
      | inr f ↦ ("", rw (e, f) refl)
      | inl f ↦
          let (k, g) =
            first_keyword_from_lem shorter fuel (t.trim_space (line_after s))
              (omega (arith, shorter (line_after s), length-line_after s f, h)) in
          (k, rw (e, f) g)
    ]
  ]

  -- The search for the first keyword ends, where trimming makes no text longer: the fuel is enough.
  pub first_keyword_terminates :
      ((s : Runes) → length (t.trim_space s) ≤ length s)
      → (s : Runes) → (k : String) × (first_keyword t s ≡ some k)
  unfolding first_keyword
  first_keyword_terminates shorter s =
      first_keyword_from_lem shorter (suc (length (t.trim_space s))) (t.trim_space s) (omega arith)

  all_read_only-All :
      (l : List Runes) → all_read_only t l ≡ true → All (λ s. is_read_only_statement t s ≡ true) l
  all_read_only-All [] h = tt
  all_read_only-All (s ∷ l) h =
      let (first, rest) = and_true (is_read_only_statement t s) (all_read_only t l) h in
      (first, all_read_only-All l rest)

  some_destructive-All :
      (l : List Runes)
      → some_destructive t l ≡ false
      → All (λ s. is_destructive_statement t s ≡ false) l
  some_destructive-All [] h = tt
  some_destructive-All (s ∷ l) h =
      let (first, rest) = or_false (is_destructive_statement t s) (some_destructive t l) h in
      (first, some_destructive-All l rest)

  -- A query gives the database nothing, unless there is a statement in it, each statement is for
  -- reading by its first keyword in read-only mode, and none is destructive by its first keyword
  -- where a confirmation is required and not given.
  pub execute_query_request_lem :
      (read_only require_confirm confirm : Bool) (succeeds : Runes → Bool) (query : Runes)
      → (execute_query_request t read_only require_confirm confirm succeeds query).0 ≢ []
      → (split_statements t query ≢ [])
        × (read_only ≡ true
            → All (λ s. is_read_only_statement t s ≡ true) (split_statements t query))
        × (require_confirm ≡ true
            → confirm ≡ false
            → All (λ s. is_destructive_statement t s ≡ false) (split_statements t query))
  unfolding execute_query_request
  execute_query_request_lem ro rc c succeeds query h =
      let l = split_statements t query in
      elim (Bool-cases (no_statements l)) [
        | inl e ↦ absurd (h (rw e refl))
        | inr e ↦ elim (Bool-cases (ro && not (all_read_only t l))) [
          | inl f ↦ absurd (h (rw (e, f) refl))
          | inr f ↦ elim (Bool-cases (rc && (not c && some_destructive t l))) [
            | inl g ↦ absurd (h (rw (e, f, g) refl))
            | inr g ↦ (
              λ empty. ground (arith, e, empty),
              λ r. all_read_only-All l (ground (arith, r, f)),
              λ r s. some_destructive-All l (ground (arith, r, s, g)),
            )
          ]
        ]
      ]

  -- In read-only mode, and without a confirmation, a single statement that begins with WITH is given
  -- to the database, whatever follows the keyword.
  pub with_executed :
      (succeeds : Runes → Bool) (statement : Runes)
      → split_statements t statement ≡ statement ∷ []
      → first_keyword t statement ≡ some "WITH"
      → execute_query_request t true true false succeeds statement ≡ (statement ∷ [], executed)
  unfolding execute_query_request execute_from
  with_executed succeeds statement one keyword = rw (one, keyword) (ground arith)
