-- ===== src/Sql/Redact.antt =====
-- plugins/shared/sqldb/sqldb.go: `RedactRows` and `RedactColumn`. The package regexp is a function that
-- compiles a pattern; a cell is `none` where it is nil.
use shellcn.Prelude.{
  ℕ, zero, suc, ◌≡◌, refl, ◌∙◌, inl, inr, String, Bool, true, false, not, ◌||◌, List, [], ◌∷◌,
  Option, none, some, map, if◌then◌else◌, Bool-cases, arith, ◌⊎◌,
}

-- A compiled pattern, none where it does not compile.
abbrev pub matches_column : Option (String → Bool) → String → Bool
matches_column none column = false
matches_column (some match_string) column = match_string column

-- The lengths that `RedactRows` compares with 0.
abbrev pub no_elements : {A : Type 0} → List A → Bool
no_elements [] = true
no_elements (x ∷ l) = false

-- Whether some index is in the map `redact`, from the mark of each column.
abbrev pub some_mark : List Bool → Bool
some_mark [] = false
some_mark (b ∷ marks) = b || some_mark marks

module _ (compile : String → Option (String → Bool)) where
  unfoldable pub redact_column : String → List String → Bool
  redact_column column [] = false
  redact_column column (p ∷ patterns) =
      matches_column (compile p) column || redact_column column patterns

  -- Whether each column is in the map `redact`.
  abbrev pub redact_marks : List String → List String → List Bool
  redact_marks [] patterns = []
  redact_marks (column ∷ columns) patterns =
      redact_column column patterns ∷ redact_marks columns patterns

module _ {V : Type 0} (redacted_value : V) where
  abbrev pub redact_cell : Bool → Option V → Option V
  redact_cell b none = none
  redact_cell b (some v) = some (if b then redacted_value else v)

  abbrev pub redact_row : List Bool → List (Option V) → List (Option V)
  redact_row [] row = row
  redact_row (b ∷ marks) [] = []
  redact_row (b ∷ marks) (v ∷ row) = redact_cell b v ∷ redact_row marks row

  unfoldable pub redact_rows :
      (String → Option (String → Bool))
      → List String
      → List (List (Option V))
      → List String
      → List (List (Option V))
  redact_rows compile columns rows patterns =
      let marks = redact_marks compile columns patterns in
      if no_elements rows || no_elements columns || no_elements patterns
      then rows
      else if not (some_mark marks)
      then rows
      else map (redact_row marks) rows

-- The element at an index.
abbrev pub get_elem? : {A : Type 0} → List A → ℕ → Option A
get_elem? [] n = none
get_elem? (x ∷ l) zero = some x
get_elem? (x ∷ l) (suc n) = get_elem? l n

abbrev in_row : {A : Type 0} → Option (List A) → ℕ → Option A
in_row none j = none
in_row (some row) j = get_elem? row j

-- The cell of a row and a column, none where the rows have none.
abbrev pub cell_at : {A : Type 0} → List (List A) → ℕ → ℕ → Option A
cell_at rows i j = in_row (get_elem? rows i) j

-- Some pattern compiles and matches the name of the column.
abbrev Matched : (String → Option (String → Bool)) → String → List String → Type 0
Matched compile column [] = ⊥
Matched compile column (p ∷ patterns) =
    ((f : String → Bool) × (compile p ≡ some f) × (f column ≡ true))
    ⊎ Matched compile column patterns

-- There is a column at the index, and it is matched.
abbrev pub IsRedacted : (String → Option (String → Bool)) → List String → Option String → Type 0
IsRedacted compile patterns none = ⊥
IsRedacted compile patterns (some column) = Matched compile column patterns

matches_column-cases :
    (o : Option (String → Bool)) (column : String)
    → matches_column o column ≡ true
    → (f : String → Bool) × (o ≡ some f) × (f column ≡ true)
matches_column-cases none column h = absurd (cc)
matches_column-cases (some f) column h = (f, refl, h)

matches_column-some :
    (o : Option (String → Bool)) (f : String → Bool) (column : String)
    → o ≡ some f
    → matches_column o column ≡ f column
matches_column-some o f column e = rw e refl

redact_column-Matched :
    (compile : String → Option (String → Bool)) (column : String) (patterns : List String)
    → redact_column compile column patterns ≡ true
    → Matched compile column patterns
unfolding redact_column
redact_column-Matched compile column [] h = absurd (cc)
redact_column-Matched compile column (p ∷ patterns) h =
    elim (Bool-cases (matches_column (compile p) column)) [
      | inl b ↦ inl (matches_column-cases (compile p) column b)
      | inr b ↦ inr (redact_column-Matched compile column patterns (ground (arith, b, h)))
    ]

Matched-redact_column :
    (compile : String → Option (String → Bool)) (column : String) (patterns : List String)
    → Matched compile column patterns
    → redact_column compile column patterns ≡ true
unfolding redact_column
Matched-redact_column compile column [] h = absurd h
Matched-redact_column compile column (p ∷ patterns) (inl (f, e, t)) =
    rw (matches_column-some (compile p) f column e ∙ t) refl
Matched-redact_column compile column (p ∷ patterns) (inr h) =
    let below = Matched-redact_column compile column patterns h in
    elim (Bool-cases (matches_column (compile p) column)) [ inl b ↦ rw b refl | inr b ↦ rw b below ]

abbrev mark_of : Option Bool → Bool
mark_of none = false
mark_of (some b) = b

mark_of-some_mark :
    (marks : List Bool) (j : ℕ) → some_mark marks ≡ false → mark_of (get_elem? marks j) ≡ false
mark_of-some_mark [] j h = refl
mark_of-some_mark (b ∷ marks) zero h = ground (arith, h)
mark_of-some_mark (b ∷ marks) (suc j) h = mark_of-some_mark marks j (ground (arith, h))

-- The mark at the index of a column.
abbrev column_mark : (String → Option (String → Bool)) → List String → List String → ℕ → Bool
column_mark compile columns patterns j =
    mark_of (get_elem? (redact_marks compile columns patterns) j)

column_mark-IsRedacted :
    (compile : String → Option (String → Bool)) (columns patterns : List String) (j : ℕ)
    → column_mark compile columns patterns j ≡ true
    → IsRedacted compile patterns (get_elem? columns j)
column_mark-IsRedacted compile [] patterns j h = absurd (cc)
column_mark-IsRedacted compile (c ∷ columns) patterns zero h =
    redact_column-Matched compile c patterns h
column_mark-IsRedacted compile (c ∷ columns) patterns (suc j) h =
    column_mark-IsRedacted compile columns patterns j h

IsRedacted-column_mark :
    (compile : String → Option (String → Bool)) (columns patterns : List String) (j : ℕ)
    → IsRedacted compile patterns (get_elem? columns j)
    → column_mark compile columns patterns j ≡ true
IsRedacted-column_mark compile [] patterns j h = absurd h
IsRedacted-column_mark compile (c ∷ columns) patterns zero h =
    Matched-redact_column compile c patterns h
IsRedacted-column_mark compile (c ∷ columns) patterns (suc j) h =
    IsRedacted-column_mark compile columns patterns j h

column_mark-nil :
    (compile : String → Option (String → Bool)) (columns : List String) (j : ℕ)
    → column_mark compile columns [] j ≡ false
unfolding redact_column
column_mark-nil compile [] j = refl
column_mark-nil compile (c ∷ columns) zero = refl
column_mark-nil compile (c ∷ columns) (suc j) = column_mark-nil compile columns j

module _ {V : Type 0} (redacted_value : V) where
  -- A cell with the redacted value in place of what stands in it; a nil cell stays nil.
  abbrev pub hidden : Option (Option V) → Option (Option V)
  hidden none = none
  hidden (some none) = some none
  hidden (some (some v)) = some (some redacted_value)

  abbrev marked : Bool → Option (Option V) → Option (Option V)
  marked true cell = hidden cell
  marked false cell = cell

  redact_cell-marked :
      (b : Bool) (v : Option V) → some (redact_cell redacted_value b v) ≡ marked b (some v)
  redact_cell-marked true none = refl
  redact_cell-marked false none = refl
  redact_cell-marked true (some v) = refl
  redact_cell-marked false (some v) = refl

  marked-none : (b : Bool) → none ≡ marked b none
  marked-none true = refl
  marked-none false = refl

  get_elem?-redact_row :
      (marks : List Bool) (row : List (Option V)) (j : ℕ)
      → get_elem? (redact_row redacted_value marks row) j
        ≡ marked (mark_of (get_elem? marks j)) (get_elem? row j)
  get_elem?-redact_row [] row j = refl
  get_elem?-redact_row (b ∷ marks) [] j = marked-none (mark_of (get_elem? (b ∷ marks) j))
  get_elem?-redact_row (b ∷ marks) (v ∷ row) zero = redact_cell-marked b v
  get_elem?-redact_row (b ∷ marks) (v ∷ row) (suc j) = get_elem?-redact_row marks row j

  cell_at-map :
      (marks : List Bool) (rows : List (List (Option V))) (i j : ℕ)
      → cell_at (map (redact_row redacted_value marks) rows) i j
        ≡ marked (mark_of (get_elem? marks j)) (cell_at rows i j)
  cell_at-map marks [] i j = marked-none (mark_of (get_elem? marks j))
  cell_at-map marks (row ∷ rows) zero j = get_elem?-redact_row marks row j
  cell_at-map marks (row ∷ rows) (suc i) j = cell_at-map marks rows i j

  redact_rows-marked :
      (compile : String → Option (String → Bool)) (columns patterns : List String)
      (rows : List (List (Option V))) (i j : ℕ)
      → cell_at (redact_rows redacted_value compile columns rows patterns) i j
        ≡ marked (column_mark compile columns patterns j) (cell_at rows i j)
  unfolding redact_rows
  redact_rows-marked compile columns patterns [] i j =
      marked-none (column_mark compile columns patterns j)
  redact_rows-marked compile [] patterns (row ∷ rows) i j = refl
  redact_rows-marked compile (c ∷ columns) [] (row ∷ rows) i j =
      rw (column_mark-nil compile (c ∷ columns) j) refl
  redact_rows-marked compile (c ∷ columns) (p ∷ patterns) (row ∷ rows) i j =
      let marks = redact_marks compile (c ∷ columns) (p ∷ patterns) in
      elim (Bool-cases (some_mark marks)) [
        | inl b ↦ rw b (cell_at-map marks (row ∷ rows) i j)
        | inr b ↦ rw (b, mark_of-some_mark marks j b) refl
      ]

  -- A cell of the rows that RedactRows gives is, where its column is there and some pattern compiles
  -- and matches the name of the column, the cell that was given with the redacted value in it, or nil
  -- if that is nil; and where no pattern does, the cell that was given. So it is also where there is
  -- no row, no column or no pattern.
  pub cell_at-redact_rows :
      (compile : String → Option (String → Bool)) (columns patterns : List String)
      (rows : List (List (Option V))) (i j : ℕ)
      → let after = cell_at (redact_rows redacted_value compile columns rows patterns) i j in
        let redacted = IsRedacted compile patterns (get_elem? columns j) in
        (redacted × (after ≡ hidden (cell_at rows i j)))
        ⊎ ((¬ redacted) × (after ≡ cell_at rows i j))
  cell_at-redact_rows compile columns patterns rows i j =
      let cell = redact_rows-marked compile columns patterns rows i j in
      elim (Bool-cases (column_mark compile columns patterns j)) [
        | inl b ↦ inl (column_mark-IsRedacted compile columns patterns j b, cell ∙ rw b refl)
        | inr b ↦ inr (
          λ h. absurd (cc (b, IsRedacted-column_mark compile columns patterns j h)),
          cell ∙ rw b refl,
        )
      ]
