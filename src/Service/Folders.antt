-- ===== src/Service/Folders.antt =====
-- internal/service/connections.go: the folders of a user's sidebar, over memConnectionFolderStore of
-- internal/store/memory.go. `strings.TrimSpace`, the random id and the clock are arguments. The
-- listing is not sorted here: nothing below depends on its order.
pub mod Listed
pub mod Ranks
pub mod Created
use shellcn.Prelude.{
  ℕ, ◌≡◌, ◌≢◌, refl, ap, ◌∙◌, inl, inr, ◌⊎◌, String, Bool, true, false, not, ◌||◌, ◌&&◌, List, [],
  ◌∷◌, Option, none, some, arith, ◌==◌, string_eq, if◌then◌else◌, Option-cases, Bool-cases, All,
  if_elim,
}
use mathlib.Core.Path.{subst}
use shellcn.Prelude.Int.{ℤ, pos, negsuc, ◌+ℤ◌, ◌≤ℤ◌, ltb_ℤ, +ℤ_parts}
use shellcn.Prelude.Map.{Map, lookup, insert}
use shellcn.Prelude.Distinct.{member}
use shellcn.Store.Errors.{Error, conflict, not_found}

-- internal/models/connection.go
pub record ConnectionFolder : Type 0 where
  pub id : String
  pub user_id : String
  pub parent_id : String
  pub name : String
  pub color : String
  pub sort_order : ℤ
  pub created_at : ℕ
  pub updated_at : ℕ

abbrev pub FolderStore : Type 0
FolderStore = Map String ConnectionFolder

pub create_over :
    ConnectionFolder → Option ConnectionFolder → FolderStore → FolderStore × Option Error
create_over f none m = (insert f.id f m, none)
create_over f (some old) m = (m, some conflict)

unfoldable pub create : ConnectionFolder → FolderStore → FolderStore × Option Error
unfolding create_over
create f m = create_over f (lookup f.id m) m

unfoldable pub update_over :
    ConnectionFolder → Option ConnectionFolder → FolderStore → FolderStore × Option Error
update_over f none m = (m, some not_found)
update_over f (some old) m = (insert f.id f m, none)

unfoldable pub update : ConnectionFolder → FolderStore → FolderStore × Option Error
unfolding update_over
update f m = update_over f (lookup f.id m) m

unfoldable pub list_by_user : String → FolderStore → List ConnectionFolder
list_by_user user_id [] = []
list_by_user user_id ((k, f) ∷ m) =
    let rest = list_by_user user_id m in if f.user_id == user_id then f ∷ rest else rest

pub record FolderInput : Type 0 where
  pub name : String
  pub color : String
  pub parent_id : String

pub data Failure : Type 0 where
  name_required unsupported_color unknown_parent : Failure
  store_error : Error → Failure

pub data Result : Type 0 where
  ok : ConnectionFolder → Result
  err : Failure → Result

abbrev pub folder_colors : List String
folder_colors = "slate" ∷ "blue" ∷ "teal" ∷ "emerald" ∷ "amber" ∷ "rose" ∷ "violet" ∷ "cyan" ∷ []

abbrev pub default_folder_color : String
default_folder_color = "slate"

unfoldable pub resolve_folder_color : (String → String) → String → Option String
resolve_folder_color trim color =
    if trim color == ""
    then some default_folder_color
    else if not (member (trim color) folder_colors)
    then none
    else some (trim color)

unfoldable pub folder_exists : List ConnectionFolder → String → Bool
folder_exists [] id = false
folder_exists (f ∷ folders) id = f.id == id || folder_exists folders id

-- The loop of `nextFolderOrder` from the greatest order so far.
unfoldable pub greatest_order : String → ℤ → List ConnectionFolder → ℤ
greatest_order parent_id max_order [] = max_order
greatest_order parent_id max_order (f ∷ folders) =
    greatest_order parent_id
      (if not (f.parent_id == parent_id)
        then max_order
        else if ltb_ℤ max_order f.sort_order
        then f.sort_order
        else max_order)
      folders

-- The greatest and the least `int`, of 64 bits.
abbrev pub max_int : ℤ
max_int = pos 9223372036854775807

abbrev pub min_int : ℤ
min_int = negsuc 9223372036854775807

-- `n + 1` of an `int`, which wraps around.
unfoldable pub increment : ℤ → ℤ
increment n = if ltb_ℤ n max_int then n +ℤ pos 1 else min_int

unfoldable pub next_folder_order : List ConnectionFolder → String → ℤ
unfolding greatest_order increment
next_folder_order folders parent_id = increment (greatest_order parent_id (negsuc 0) folders)

pub stored : ConnectionFolder → FolderStore × Option Error → FolderStore × Result
stored f (m, none) = (m, ok f)
stored f (m, some e) = (m, err (store_error e))

-- The folder that is built once the color is known.
abbrev pub new_folder :
    String → FolderInput → String → String → String → ℕ → FolderStore → ConnectionFolder
new_folder user_id i name color id now m = record {
  id = id;
  user_id = user_id;
  parent_id = i.parent_id;
  name = name;
  color = color;
  sort_order = next_folder_order (list_by_user user_id m) i.parent_id;
  created_at = now;
  updated_at = now;
}

pub create_colored :
    String → FolderInput → String → String → ℕ → FolderStore → Option String → FolderStore × Result
unfolding stored folder_exists
create_colored user_id i name id now m none = (m, err unsupported_color)
create_colored user_id i name id now m (some color) =
    let f = new_folder user_id i name color id now m in
    if not (i.parent_id == "") && not (folder_exists (list_by_user user_id m) i.parent_id)
    then (m, err unknown_parent)
    else stored f (create f m)

unfoldable pub create_folder :
    (String → String) → String → FolderInput → String → ℕ → FolderStore → FolderStore × Result
unfolding create_colored
create_folder trim user_id i id now m =
    if trim i.name == ""
    then (m, err name_required)
    else create_colored user_id i (trim i.name) id now m (resolve_folder_color trim i.color)

update_colored : ConnectionFolder → String → ℕ → FolderStore → Option String → FolderStore × Result
unfolding stored
update_colored f name now m none = (m, err unsupported_color)
update_colored f name now m (some color) =
    let f' : ConnectionFolder = record f { name = name; color = color; updated_at = now } in
    stored f' (update f' m)

unfoldable pub update_folder :
    (String → String) → ConnectionFolder → FolderInput → ℕ → FolderStore → FolderStore × Result
unfolding update_colored
update_folder trim f i now m =
    if trim i.name == ""
    then (m, err name_required)
    else update_colored f (trim i.name) now m (resolve_folder_color trim i.color)
