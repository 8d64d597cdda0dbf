-- ===== src/Service/Layout.antt =====
-- internal/service/connections.go, `SaveConnectionLayout`, over memConnectionPlacementStore of
-- internal/store/memory.go: where a user's connections stand in the sidebar. The sets of accessible
-- connections and of known folders are functions.
use shellcn.Prelude.{
  ℕ, ◌≡◌, ◌≢◌, refl, sym, ap, ◌∙◌, inl, inr, ◌⊎◌, String, Bool, true, false, not, ◌&&◌, List, [],
  ◌∷◌, Option, none, some, arith, ◌==◌, string_eq, if◌then◌else◌, Bool-cases, All, beq_refl,
}
use mathlib.Core.Path.{subst}
use Prim.Native.Char.{nul}
use Prim.Native.String.{◌++◌ as str_append, ◌∷◌ as char_then}
use text.Mathlib.TextLemmas.{append_cancel_left}
use shellcn.Prelude.Int.{ℤ}
use shellcn.Prelude.Map.{Map, lookup, insert, delete, delete_if, lookup-insert}
use shellcn.Prelude.Distinct.{member}

pub record ConnectionPlacement : Type 0 where
  pub user_id : String
  pub connection_id : String
  pub folder_id : String
  pub sort_order : ℤ
  pub updated_at : ℕ

abbrev pub Placements : Type 0
Placements = Map String ConnectionPlacement

unfoldable pub placement_key : String → String → String
placement_key user_id connection_id = str_append user_id (char_then nul connection_id)

-- `Set`
unfoldable pub set : ConnectionPlacement → Placements → Placements
set p m = insert (placement_key p.user_id p.connection_id) p m

-- `Delete` of the store.
unfoldable pub unset : String → String → Placements → Placements
unset user_id connection_id m = delete (placement_key user_id connection_id) m

unfoldable pub delete_by_connection : String → Placements → Placements
delete_by_connection connection_id m = delete_if (λ k p. p.connection_id == connection_id) m

-- `MoveFolder`, and `ClearFolder` with an empty target.
unfoldable pub move_folder : String → String → String → ℕ → Placements → Placements
move_folder user_id folder_id target now [] = []
move_folder user_id folder_id target now ((k, p) ∷ m) =
    let rest = move_folder user_id folder_id target now m in
    (if p.user_id == user_id && p.folder_id == folder_id
      then (k, record p { folder_id = target; updated_at = now })
      else (k, p))
    ∷ rest

pub record PlacementInput : Type 0 where
  pub connection_id : String
  pub folder_id : String
  pub sort_order : ℤ

pub data Refusal : Type 0 where
  not_accessible duplicate_connection unknown_folder : String → Refusal

module _ (user_id : String) (accessible folders : String → Bool) (now : ℕ) where
  abbrev pub placement : PlacementInput → ConnectionPlacement
  placement i = record {
    user_id = user_id;
    connection_id = i.connection_id;
    folder_id = i.folder_id;
    sort_order = i.sort_order;
    updated_at = now;
  }

  -- The loop, from the connections seen so far. Rows before the refused one stay written.
  unfoldable pub save_from :
      List String → List PlacementInput → Placements → Placements × Option Refusal
  unfolding set
  save_from seen [] m = (m, none)
  save_from seen (i ∷ items) m =
      let rest = save_from (i.connection_id ∷ seen) items (set (placement i) m) in
      if not (accessible i.connection_id)
      then (m, some (not_accessible i.connection_id))
      else if member i.connection_id seen
      then (m, some (duplicate_connection i.connection_id))
      else if not (i.folder_id == "") && not (folders i.folder_id)
      then (m, some (unknown_folder i.folder_id))
      else rest

  unfoldable pub save_connection_layout :
      List PlacementInput → Placements → Placements × Option Refusal
  unfolding save_from
  save_connection_layout items m = save_from [] items m

  abbrev pub IsAllowed : List String → PlacementInput → Type 0
  IsAllowed seen i =
      (accessible i.connection_id ≡ true)
      × (member i.connection_id seen ≡ false)
      × ((i.folder_id ≡ "") ⊎ (folders i.folder_id ≡ true))

  abbrev pub AllAllowed : List String → List PlacementInput → Type 0
  AllAllowed seen [] = Unit
  AllAllowed seen (i ∷ items) = IsAllowed seen i × AllAllowed (i.connection_id ∷ seen) items

  saved_step :
      (seen : List String) (i : PlacementInput) (items : List PlacementInput) (m : Placements)
      → (save_from seen (i ∷ items) m).1 ≡ none
      → IsAllowed seen i
        × (save_from seen (i ∷ items) m
            ≡ save_from (i.connection_id ∷ seen) items (set (placement i) m))
  unfolding save_from
  saved_step seen i items m h = elim (Bool-cases (i.folder_id == "")) [
    | inl e ↦
        ((ground arith, ground arith, inl ((string_eq.same_iff i.folder_id "").0 e)), ground arith)
    | inr e ↦ ((ground arith, ground arith, inr (ground (arith, e))), ground arith)
  ]

  key_apart : (c d : String) → c ≢ d → (placement_key user_id c == placement_key user_id d) ≡ false
  unfolding placement_key
  key_apart c d n = elim (Bool-cases (placement_key user_id c == placement_key user_id d)) [
    | inl e ↦
        let same = (string_eq.same_iff (placement_key user_id c) (placement_key user_id d)).0 e in
        let tails = append_cancel_left user_id (char_then nul c) (char_then nul d) same in
        absurd (n (cc tails))
    | inr e ↦ e
  ]

  set_here :
      (i : PlacementInput) (m : Placements)
      → lookup (placement_key user_id i.connection_id) (set (placement i) m) ≡ some (placement i)
  unfolding set
  set_here i m =
      let k = placement_key user_id i.connection_id in
      ground (arith, lookup-insert k k (placement i) m, beq_refl k)

  set_apart :
      (i : PlacementInput) (c : String) (m : Placements)
      → i.connection_id ≢ c
      → lookup (placement_key user_id c) (set (placement i) m) ≡ lookup (placement_key user_id c) m
  unfolding set
  set_apart i c m n = ground (
    arith,
    lookup-insert (placement_key user_id i.connection_id) (placement_key user_id c) (placement i) m,
    key_apart i.connection_id c n,
  )

  -- A key of a connection that was seen is not written any more.
  saved_keeps :
      (seen : List String) (connection_id : String) (items : List PlacementInput) (m : Placements)
      → member connection_id seen ≡ true
      → (save_from seen items m).1 ≡ none
      → lookup (placement_key user_id connection_id) (save_from seen items m).0
        ≡ lookup (placement_key user_id connection_id) m
  saved_keeps seen c [] m s h = unfold save_from in refl
  saved_keeps seen c (i ∷ items) m s h =
      let (a, e) = saved_step seen i items m h in
      let next = set (placement i) m in
      let n : i.connection_id ≢ c =
        λ p. absurd (cc (ap (λ (t : String). member t seen) p, a.1, s)) in
      let k = placement_key user_id c in
      let kept =
        saved_keeps (i.connection_id ∷ seen) c items next (ground (arith, s))
          (sym (ap (λ r. r.1) e) ∙ h) in
      ap (λ r. lookup k r.0) e ∙ (kept ∙ set_apart i c m n)

  saved :
      (seen : List String) (items : List PlacementInput) (m : Placements)
      → (save_from seen items m).1 ≡ none
      → AllAllowed seen items
        × All
            (λ i.
              lookup (placement_key user_id i.connection_id) (save_from seen items m).0
              ≡ some (placement i))
            items
  saved seen [] m h = (tt, tt)
  saved seen (i ∷ items) m h =
      let (a, e) = saved_step seen i items m h in
      let next = set (placement i) m in
      let k = placement_key user_id i.connection_id in
      let h' = sym (ap (λ r. r.1) e) ∙ h in
      let kept =
        saved_keeps (i.connection_id ∷ seen) i.connection_id items next
          (ground (arith, beq_refl i.connection_id)) h' in
      let (rest, places) = saved (i.connection_id ∷ seen) items next h' in
      (
        (a, rest),
        (
          ap (λ r. lookup k r.0) e ∙ (kept ∙ set_here i m),
          subst
              (λ (m' : Placements).
                All (λ i. lookup (placement_key user_id i.connection_id) m' ≡ some (placement i))
                  items)
              (sym (ap (λ r. r.0) e)) places,
        ),
      )

  -- A layout that SaveConnectionLayout saves with no error names only accessible connections, none
  -- of them twice, in no folder or a known one, and afterwards each stands where the layout puts it.
  pub save_connection_layout_places :
      (items : List PlacementInput) (m : Placements)
      → (save_connection_layout items m).1 ≡ none
      → AllAllowed [] items
        × All
            (λ i.
              lookup (placement_key user_id i.connection_id) (save_connection_layout items m).0
              ≡ some (placement i))
            items
  unfolding save_connection_layout
  save_connection_layout_places items m h = saved [] items m h
