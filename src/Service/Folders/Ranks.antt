-- ===== src/Service/Folders/Ranks.antt =====
-- `nextFolderOrder`: the order of a new folder among those below its parent.
use shellcn.Prelude.{
  ◌≡◌, refl, inl, inr, ◌⊎◌, String, not, List, [], ◌∷◌, arith, ◌==◌, string_eq, if◌then◌else◌,
  Bool-cases, All,
}
use shellcn.Prelude.Int.{ℤ, pos, negsuc, ◌+ℤ◌, ◌≤ℤ◌, ltb_ℤ, +ℤ_parts}
use shellcn.Service.Folders.Listed.{SomeIn}
use shellcn.Service.Folders.{
  ConnectionFolder, greatest_order, next_folder_order, max_int, min_int, increment,
}

-- The folders below the same parent come before the order.
abbrev pub Before : String → ℤ → ConnectionFolder → Type 0
Before parent_id order f = f.parent_id ≡ parent_id → f.sort_order +ℤ pos 1 ≤ℤ order

greatest_order-ge :
    (parent_id : String) (max_order : ℤ) (folders : List ConnectionFolder)
    → max_order ≤ℤ greatest_order parent_id max_order folders
unfolding greatest_order
greatest_order-ge parent_id max_order [] = omega arith
greatest_order-ge parent_id max_order (f ∷ folders) =
    let next : ℤ =
      if not (f.parent_id == parent_id)
      then max_order
      else if ltb_ℤ max_order f.sort_order
      then f.sort_order
      else max_order in
    let step : max_order ≤ℤ next = ground arith in
    omega (arith, greatest_order-ge parent_id next folders, step)

greatest_order-Before :
    (parent_id : String) (max_order : ℤ) (folders : List ConnectionFolder)
    → All (Before parent_id (greatest_order parent_id max_order folders +ℤ pos 1)) folders
unfolding greatest_order
greatest_order-Before parent_id max_order [] = tt
greatest_order-Before parent_id max_order (f ∷ folders) =
    let next : ℤ =
      if not (f.parent_id == parent_id)
      then max_order
      else if ltb_ℤ max_order f.sort_order
      then f.sort_order
      else max_order in
    let last = greatest_order parent_id next folders in
    (
      λ e.
          let step : f.sort_order ≤ℤ next =
            ground (arith, (string_eq.same_iff f.parent_id parent_id).1 e) in
          omega (
            arith,
            greatest_order-ge parent_id next folders,
            step,
            +ℤ_parts f.sort_order (pos 1),
            +ℤ_parts last (pos 1),
          ),
      greatest_order-Before parent_id next folders,
    )

-- A folder below the parent that has the greatest order that there is.
abbrev pub IsLast : String → ConnectionFolder → Type 0
IsLast parent_id f = (f.parent_id ≡ parent_id) × (max_int ≤ℤ f.sort_order)

-- A greatest order of 2^63 - 1 is the one that the loop begins with, or that of a folder.
greatest_order-IsLast :
    (parent_id : String) (max_order : ℤ) (folders : List ConnectionFolder)
    → max_int ≤ℤ greatest_order parent_id max_order folders
    → (max_int ≤ℤ max_order) ⊎ SomeIn (IsLast parent_id) folders
unfolding greatest_order
greatest_order-IsLast parent_id max_order [] h = inl h
greatest_order-IsLast parent_id max_order (f ∷ folders) h =
    let next : ℤ =
      if not (f.parent_id == parent_id)
      then max_order
      else if ltb_ℤ max_order f.sort_order
      then f.sort_order
      else max_order in
    elim (greatest_order-IsLast parent_id next folders h) [
      | inr below ↦ inr (inr below)
      | inl at ↦ elim (Bool-cases (f.parent_id == parent_id)) [
        | inr b ↦ inl (ground (arith, b, at))
        | inl b ↦ elim (Bool-cases (ltb_ℤ max_order f.sort_order)) [
          | inr c ↦ inl (ground (arith, b, c, at))
          | inl c ↦
              inr (inl ((string_eq.same_iff f.parent_id parent_id).0 b, ground (arith, b, c, at)))
        ]
      ]
    ]

-- The next order is after those of the folders below the parent, or it has wrapped around.
pub next_folder_order_lem :
    (folders : List ConnectionFolder) (parent_id : String)
    → All (Before parent_id (next_folder_order folders parent_id)) folders
      ⊎ ((next_folder_order folders parent_id ≡ min_int) × SomeIn (IsLast parent_id) folders)
unfolding next_folder_order increment
next_folder_order_lem folders parent_id =
    let greatest = greatest_order parent_id (negsuc 0) folders in
    elim (Bool-cases (ltb_ℤ greatest max_int)) [
      | inl b ↦ inl (rw b (greatest_order-Before parent_id (negsuc 0) folders))
      | inr b ↦ inr (
        rw b refl,
        elim (greatest_order-IsLast parent_id (negsuc 0) folders (ground (arith, b))) [
          | inl low ↦ absurd (omega (arith, low))
          | inr full ↦ full
        ],
      )
    ]
