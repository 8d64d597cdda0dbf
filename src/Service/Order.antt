-- ===== src/Service/Order.antt =====
-- internal/service/connections.go, `SaveConnectionFolderOrder`: the order and the nesting of a
-- user's folders, over memConnectionFolderStore. Every item is checked, and the nesting that
-- results, before the first row is written.
pub mod Rows
pub mod Checks
pub mod Writes
pub mod Saved
use shellcn.Prelude.{
  ℕ, String, Bool, true, false, not, ◌&&◌, List, [], ◌∷◌, Option, none, some, ◌==◌, string_eq,
  if◌then◌else◌, arith,
}
use shellcn.Prelude.Int.{ℤ, pos}
use shellcn.Prelude.Map.{Map, lookup, insert}
use shellcn.Prelude.Distinct.{member}
use shellcn.Store.Errors.{Error}
use shellcn.Service.Folders.{ConnectionFolder, FolderStore, update, list_by_user}
use shellcn.Service.Cycle.{has_folder_cycle}

pub record FolderOrderInput : Type 0 where
  pub folder_id : String
  pub parent_id : String
  pub sort_order : ℤ

-- `search_unfinished` is the model's own, for a search that has run out of fuel.
pub data OrderRefusal : Type 0 where
  unknown_folder duplicate_folder unknown_parent : String → OrderRefusal
  self_parent nesting_cycle search_unfinished : OrderRefusal
  update_failed : Error → OrderRefusal

pub data Checked : Type 0 where
  accepted : Map String String → Checked
  refused : OrderRefusal → Checked

-- The loops `byID[folder.ID] = …` and `parentByID[folder.ID] = …`.
unfoldable pub index_from {ℓ} :
    {V : Type ℓ} → (ConnectionFolder → V) → List ConnectionFolder → Map String V → Map String V
index_from g [] m = m
index_from g (f ∷ folders) m = index_from g folders (insert f.id (g f) m)

abbrev pub is_present {ℓ} : {V : Type ℓ} → Option V → Bool
is_present none = false
is_present (some v) = true

unfoldable pub check_from :
    Map String ConnectionFolder → List String → List FolderOrderInput → Map String String → Checked
check_from by_id seen [] parents = accepted parents
check_from by_id seen (i ∷ items) parents =
    let rest =
      check_from by_id (i.folder_id ∷ seen) items (insert i.folder_id i.parent_id parents) in
    if not (is_present (lookup i.folder_id by_id))
    then refused (unknown_folder i.folder_id)
    else if member i.folder_id seen
    then refused (duplicate_folder i.folder_id)
    else if i.parent_id == i.folder_id
    then refused self_parent
    else if not (i.parent_id == "") && not (is_present (lookup i.parent_id by_id))
    then refused (unknown_parent i.parent_id)
    else rest

-- `byID[item.FolderID]`, for a missing key the zero value.
abbrev pub folder_of : Option ConnectionFolder → ConnectionFolder
folder_of (some f) = f
folder_of none = record {
  id = "";
  user_id = "";
  parent_id = "";
  name = "";
  color = "";
  sort_order = pos 0;
  created_at = 0;
  updated_at = 0;
}

abbrev pub moved : ℕ → FolderOrderInput → ConnectionFolder → ConnectionFolder
moved now i f = record f { parent_id = i.parent_id; sort_order = i.sort_order; updated_at = now }

abbrev pub continue_update :
    FolderStore × Option Error
    → (FolderStore → FolderStore × Option OrderRefusal)
    → FolderStore × Option OrderRefusal
continue_update (m, none) go = go m
continue_update (m, some e) go = (m, some (update_failed e))

unfoldable pub update_from :
    Map String ConnectionFolder
    → ℕ
    → List FolderOrderInput
    → FolderStore
    → FolderStore × Option OrderRefusal
update_from by_id now [] m = (m, none)
update_from by_id now (i ∷ items) m =
    continue_update (update (moved now i (folder_of (lookup i.folder_id by_id))) m)
      (λ m'. update_from by_id now items m')

abbrev pub save_searched :
    Option Bool
    → FolderStore × Option OrderRefusal
    → FolderStore
    → FolderStore × Option OrderRefusal
save_searched none saved m = (m, some search_unfinished)
save_searched (some true) saved m = (m, some nesting_cycle)
save_searched (some false) saved m = saved

abbrev pub save_checked :
    Checked
    → Map String ConnectionFolder
    → ℕ
    → List FolderOrderInput
    → FolderStore
    → FolderStore × Option OrderRefusal
save_checked (refused r) by_id now items m = (m, some r)
save_checked (accepted parents) by_id now items m =
    save_searched (has_folder_cycle parents) (update_from by_id now items m) m

abbrev pub folders_by_id : String → FolderStore → Map String ConnectionFolder
folders_by_id user_id m = index_from (λ f. f) (list_by_user user_id m) []

abbrev pub parents_by_id : String → FolderStore → Map String String
parents_by_id user_id m = index_from (λ f. f.parent_id) (list_by_user user_id m) []

unfoldable pub save_connection_folder_order :
    String → ℕ → List FolderOrderInput → FolderStore → FolderStore × Option OrderRefusal
save_connection_folder_order user_id now items m =
    save_checked (check_from (folders_by_id user_id m) [] items (parents_by_id user_id m))
      (folders_by_id user_id m) now items m
