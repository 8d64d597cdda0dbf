-- ===== src/Service/Order/Saved.antt =====
-- What a saved order leaves, and that a refused one leaves everything.
use shellcn.Prelude.{
  ℕ, zero, suc, ◌≡◌, refl, ap, ◌∙◌, inl, inr, ◌⊎◌, String, Bool, true, false, List, [], ◌∷◌, Option,
  none, some, string_eq, arith, Option-cases,
}
use mathlib.Core.Path.{subst, fun_ext}
use shellcn.Prelude.Map.{Map, lookup, IsMap}
use shellcn.Service.Folders.{ConnectionFolder, FolderStore}
use shellcn.Service.Cycle.{has_folder_cycle, parent, text_of}
use shellcn.Service.Cycle.Rooted.{RootedIn, Rooted}
use shellcn.Service.Cycle.Search.{has_folder_cycle-Cycle, has_folder_cycle_terminates}
use shellcn.Service.Order.{
  FolderOrderInput, OrderRefusal, nesting_cycle, Checked, accepted, refused, is_present, check_from,
  folder_of, update_from, save_checked, folders_by_id, parents_by_id, save_connection_folder_order,
}
use shellcn.Service.Order.Rows.{
  Keyed, Keyed-lookup, lookup-folders_by_id, lookup-parents_by_id, owned,
}
use shellcn.Service.Order.Checks.{
  AllSound, CheckedAs, IsValidation, asked, asked-known, check_from_lem, parent_after, row_after,
}
use shellcn.Service.Order.Writes.{AllKeyed, AllStored, Written, update_from_lem, written}

-- The rows of the store that a user is_owned, as a set of known folders.
abbrev pub is_owned : String → FolderStore → String → Bool
is_owned user_id m a = is_present (owned user_id (lookup a m))

-- What a saved list has left.
pub record Saved (user_id : String) (now : ℕ) (items : List FolderOrderInput)
    (before after : FolderStore) : Type 0 where
  pub sound : AllSound (is_owned user_id before) [] items
  pub rows : (a : String) → lookup a after ≡ row_after now (asked items a) (lookup a before)
  pub nested : (a : String) → Rooted (parents_by_id user_id after) a

-- Parents that read alike lead to the root alike.
RootedIn-same :
    (p q : Map String String) (same : (a : String) → lookup a p ≡ lookup a q) (n : ℕ) (a : String)
    → RootedIn p n a
    → RootedIn q n a
RootedIn-same p q same zero a r = r
RootedIn-same p q same (suc n) a (new, r) = (
  new,
  subst (λ (x : Option String). RootedIn q n (text_of x)) (same a)
      (RootedIn-same p q same n (parent p a) r),
)

is_owned-lookup :
    (user_id a : String) (m : FolderStore)
    → is_owned user_id m a ≡ true
    → (f : ConnectionFolder) × (lookup a m ≡ some f) × (owned user_id (lookup a m) ≡ some f)
is_owned-lookup user_id a m h = elim (Option-cases (lookup a m)) [
  | inl e ↦ absurd (ground (arith, e, h))
  | inr (f, e) ↦ (f, e, ground (arith, e, h))
]

-- The outcomes of a run: a refusal and the store as it was, or a saved list.
abbrev pub Outcome :
    String → ℕ → FolderStore → List FolderOrderInput → FolderStore × Option OrderRefusal → Type 0
Outcome user_id now m items r =
    ((q : OrderRefusal) × (r ≡ (m, some q)) × IsValidation q)
    ⊎ ((r.1 ≡ none) × Saved user_id now items m r.0)

module _ (user_id : String) (now : ℕ) (m : FolderStore) (d : IsMap m) (k : Keyed m) where
  AllSound-Stored :
      (seen : List String) (items : List FolderOrderInput)
      → AllSound (is_owned user_id m) seen items
      → AllStored m items
  AllSound-Stored seen [] h = tt
  AllSound-Stored seen (i ∷ items) h = (
    λ e. ground (arith, (is_owned-lookup user_id i.folder_id m h.0.0).1, e),
    AllSound-Stored (i.folder_id ∷ seen) items h.1,
  )

  by_id_of :
      (a : String)
      → is_owned user_id m a ≡ true
      → lookup a m ≡ some (folder_of (lookup a (folders_by_id user_id m)))
  by_id_of a h =
      let (f, e, o) = is_owned-lookup user_id a m h in
      ground (arith, e, o, lookup-folders_by_id user_id a m d k)

  AllSound-Keyed :
      (seen : List String) (items : List FolderOrderInput)
      → AllSound (is_owned user_id m) seen items
      → AllKeyed (folders_by_id user_id m) now items
  AllSound-Keyed seen [] h = tt
  AllSound-Keyed seen (i ∷ items) h = (
    Keyed-lookup i.folder_id (folder_of (lookup i.folder_id (folders_by_id user_id m))) m k
        (by_id_of i.folder_id h.0.0),
    AllSound-Keyed (i.folder_id ∷ seen) items h.1,
  )

  -- The writes of a checked list.
  rows_lem :
      (items : List FolderOrderInput) (a : String)
      → AllSound (is_owned user_id m) [] items
      → written (folders_by_id user_id m) now (asked items a) a (lookup a m)
        ≡ row_after now (asked items a) (lookup a m)
  rows_lem items a h = elim (Option-cases (asked items a)) [
    | inl e ↦ rw e refl
    | inr (i, e) ↦ ground (arith, e, by_id_of a (asked-known (is_owned user_id m) [] items a i h e))
  ]

  parents_after :
      (items : List FolderOrderInput) (after : FolderStore) (a : String)
      → AllSound (is_owned user_id m) [] items
      → IsMap after
      → Keyed after
      → lookup a after ≡ row_after now (asked items a) (lookup a m)
      → parent_after (asked items a) (lookup a (parents_by_id user_id m))
        ≡ lookup a (parents_by_id user_id after)
  parents_after items after a h d' k' e = elim (Option-cases (asked items a)) [
    | inl f ↦ ground (
      arith,
      e,
      f,
      lookup-parents_by_id user_id a m d k,
      lookup-parents_by_id user_id a after d' k',
    )
    | inr (i, f) ↦
        let (g, b, o) =
          is_owned-lookup user_id a m (asked-known (is_owned user_id m) [] items a i h f) in
        ground (
          arith,
          e,
          f,
          b,
          o,
          lookup-parents_by_id user_id a m d k,
          lookup-parents_by_id user_id a after d' k',
        )
  ]

  Written-Saved :
      (items : List FolderOrderInput) (parents : Map String String)
      (r : FolderStore × Option OrderRefusal)
      → AllSound (is_owned user_id m) [] items
      → ((a : String)
          → lookup a parents ≡ parent_after (asked items a) (lookup a (parents_by_id user_id m)))
      → ((a : String) → Rooted parents a)
      → Written (folders_by_id user_id m) now items m r
      → Saved user_id now items m r.0
  Written-Saved items parents r h same rooted w =
      let rows = λ (a : String). w.rows a ∙ rows_lem items a h in
      record {
        sound = h;
        rows = rows;
        nested = λ a. (
          (rooted a).0,
          RootedIn-same parents (parents_by_id user_id r.0)
              (λ b. same b ∙ parents_after items r.0 b h w.is_map w.keyed (rows b)) (rooted a).0 a
              (rooted a).1,
        );
      }

  Outcome-searched :
      (items : List FolderOrderInput) (parents : Map String String) (b : Bool)
      → AllSound (is_owned user_id m) [] items
      → ((a : String)
          → lookup a parents ≡ parent_after (asked items a) (lookup a (parents_by_id user_id m)))
      → has_folder_cycle parents ≡ some b
      → Outcome user_id now m items
          (save_checked (accepted parents) (folders_by_id user_id m) now items m)
  Outcome-searched items parents true h same e = rw e (inl (nesting_cycle, refl, tt))
  Outcome-searched items parents false h same e =
      let w =
        update_from_lem (folders_by_id user_id m) now items m (AllSound-Keyed [] items h)
          (AllSound-Stored [] items h) d k in
      let r = update_from (folders_by_id user_id m) now items m in
      rw e (
        inr (
          w.no_error,
          Written-Saved items parents r h same ((has_folder_cycle-Cycle parents).1.0 e) w,
        ))

  Outcome-checked :
      (items : List FolderOrderInput) (c : Checked)
      → CheckedAs (folders_by_id user_id m) [] items (parents_by_id user_id m) c
      → Outcome user_id now m items (save_checked c (folders_by_id user_id m) now items m)
  Outcome-checked items (refused q) h = inl (q, refl, h)
  Outcome-checked items (accepted parents) h =
      Outcome-searched items parents (has_folder_cycle_terminates parents).0
        (subst (λ (known : String → Bool). AllSound known [] items)
          (fun_ext (λ a. ap is_present (lookup-folders_by_id user_id a m d k))) h.0)
        h.1 (has_folder_cycle_terminates parents).1

  -- Over a store whose rows stand under their ids, SaveConnectionFolderOrder either refuses the list
  -- and leaves the store as it was, or it gives no error, every folder of the list is the user's and
  -- listed once, each row says what the list asks and all others are as before, and every folder of
  -- the user reaches the root along its parents.
  pub save_connection_folder_order_lem :
      (items : List FolderOrderInput)
      → Outcome user_id now m items (save_connection_folder_order user_id now items m)
  unfolding save_connection_folder_order
  save_connection_folder_order_lem items =
      Outcome-checked items
        (check_from (folders_by_id user_id m) [] items (parents_by_id user_id m))
        (check_from_lem (folders_by_id user_id m) [] items (parents_by_id user_id m))
