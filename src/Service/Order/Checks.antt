-- ===== src/Service/Order/Checks.antt =====
-- What the checks of an order let pass.
use shellcn.Prelude.{
  ℕ, ◌≡◌, ◌≢◌, refl, ap, inl, inr, ◌⊎◌, String, Bool, true, false, List, [], ◌∷◌, Option, none,
  some, ◌==◌, string_eq, if◌then◌else◌, arith, Option-cases, Bool-cases,
}
use shellcn.Prelude.Map.{Map, lookup, insert, lookup-insert}
use shellcn.Prelude.Distinct.{member}
use shellcn.Service.Folders.{ConnectionFolder}
use shellcn.Service.Order.{
  FolderOrderInput, OrderRefusal, unknown_folder, duplicate_folder, unknown_parent, self_parent,
  nesting_cycle, search_unfinished, update_failed, Checked, accepted, refused, is_present,
  check_from, moved,
}

pub differs : (a b : String) → (a == b) ≡ false → a ≢ b
differs a b e same = ground (arith, string_eq.same_iff a b, e, same)

-- What the list asks of a folder: its last item.
unfoldable pub asked : List FolderOrderInput → String → Option FolderOrderInput
asked [] a = none
asked (i ∷ items) a = later (asked items a) (if i.folder_id == a then some i else none)
  where
    later : Option FolderOrderInput → Option FolderOrderInput → Option FolderOrderInput
    later (some j) first = some j
    later none first = first

abbrev pub parent_after : Option FolderOrderInput → Option String → Option String
parent_after none before = before
parent_after (some i) before = some i.parent_id

abbrev pub row_after :
    ℕ → Option FolderOrderInput → Option ConnectionFolder → Option ConnectionFolder
row_after now none row = row
row_after now (some i) none = none
row_after now (some i) (some f) = some (moved now i f)

-- An item that the checks let pass, after the folders seen so far.
abbrev pub IsSound : (String → Bool) → List String → FolderOrderInput → Type 0
IsSound known seen i =
    (known i.folder_id ≡ true)
    × (member i.folder_id seen ≡ false)
    × (i.parent_id ≢ i.folder_id)
    × ((i.parent_id ≡ "") ⊎ (known i.parent_id ≡ true))

abbrev pub AllSound : (String → Bool) → List String → List FolderOrderInput → Type 0
AllSound known seen [] = Unit
AllSound known seen (i ∷ items) = IsSound known seen i × AllSound known (i.folder_id ∷ seen) items

-- A refusal that a check of the input gives.
abbrev pub IsValidation : OrderRefusal → Type 0
IsValidation (unknown_folder id) = Unit
IsValidation (duplicate_folder id) = Unit
IsValidation (unknown_parent id) = Unit
IsValidation self_parent = Unit
IsValidation nesting_cycle = Unit
IsValidation search_unfinished = ⊥
IsValidation (update_failed e) = ⊥

module _ (by_id : Map String ConnectionFolder) where
  abbrev pub is_keyed : String → Bool
  is_keyed id = is_present (lookup id by_id)

  -- What the checks give: a refusal, or parents that say what the list asks.
  abbrev pub CheckedAs : List String → List FolderOrderInput → Map String String → Checked → Type 0
  CheckedAs seen items parents (refused r) = IsValidation r
  CheckedAs seen items parents (accepted parents') =
      AllSound is_keyed seen items
      × ((a : String) → lookup a parents' ≡ parent_after (asked items a) (lookup a parents))

  pub CheckedAs-cons :
      (seen : List String) (i : FolderOrderInput) (items : List FolderOrderInput)
      (parents : Map String String) (c : Checked)
      → IsSound is_keyed seen i
      → CheckedAs (i.folder_id ∷ seen) items (insert i.folder_id i.parent_id parents) c
      → CheckedAs seen (i ∷ items) parents c
  unfolding asked
  CheckedAs-cons seen i items parents (refused r) sound h = h
  CheckedAs-cons seen i items parents (accepted parents') sound (all, h) = (
    (sound, all),
    λ a. elim (Option-cases (asked items a)) [
      | inl e ↦ ground (arith, h a, e, lookup-insert i.folder_id a i.parent_id parents)
      | inr (j, e) ↦ ground (arith, h a, e)
    ],
  )

  pub check_from_lem :
      (seen : List String) (items : List FolderOrderInput) (parents : Map String String)
      → CheckedAs seen items parents (check_from by_id seen items parents)
  unfolding check_from asked
  check_from_lem seen [] parents = (tt, λ a. refl)
  check_from_lem seen (i ∷ items) parents =
      let ih = check_from_lem (i.folder_id ∷ seen) items (insert i.folder_id i.parent_id parents) in
      elim (Bool-cases (is_keyed i.folder_id)) [
        | inr e ↦ rw e tt
        | inl known ↦ elim (Bool-cases (member i.folder_id seen)) [
          | inl e ↦ rw (known, e) tt
          | inr new ↦ elim (Bool-cases (i.parent_id == i.folder_id)) [
            | inl e ↦ rw (known, new, e) tt
            | inr other ↦
                let apart = differs i.parent_id i.folder_id other in
                let go = λ (r : (i.parent_id ≡ "") ⊎ (is_keyed i.parent_id ≡ true)).
                  CheckedAs-cons seen i items parents
                    (check_from by_id (i.folder_id ∷ seen) items
                      (insert i.folder_id i.parent_id parents))
                    (known, new, apart, r) ih in
                elim (Bool-cases (i.parent_id == "")) [
                  | inl root ↦
                      rw (known, new, other, root)
                        (go (inl ((string_eq.same_iff i.parent_id "").0 root)))
                  | inr below ↦ elim (Bool-cases (is_keyed i.parent_id)) [
                    | inl e ↦ rw (known, new, other, below, e) (go (inr e))
                    | inr e ↦ rw (known, new, other, below, e) tt
                  ]
                ]
          ]
        ]
      ]

pub asked-known :
    (known : String → Bool) (seen : List String) (items : List FolderOrderInput) (a : String)
    (j : FolderOrderInput)
    → AllSound known seen items
    → asked items a ≡ some j
    → known a ≡ true
unfolding asked
asked-known known seen [] a j h e = absurd (cc)
asked-known known seen (i ∷ items) a j h e = elim (Option-cases (asked items a)) [
  | inl f ↦ elim (Bool-cases (i.folder_id == a)) [
    | inl b ↦ ground (arith, h.0.0, ap known ((string_eq.same_iff i.folder_id a).0 b))
    | inr b ↦ ground (arith, e, f, b)
  ]
  | inr (o, f) ↦ asked-known known (i.folder_id ∷ seen) items a o h.1 f
]
