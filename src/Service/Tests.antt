-- ===== src/Service/Tests.antt =====
-- Runs of the sidebar's folders and layout, and the theorems at concrete inputs.
use shellcn.Prelude.{◌≡◌, refl, Bool, true, String, List, [], ◌∷◌, none, some, string_eq}
use shellcn.Prelude.Int.{pos, ◌+ℤ◌}
use shellcn.Prelude.Map.{Map, IsMap, lookup, insert}
use shellcn.Service.Folders.{
  FolderInput, ConnectionFolder, FolderStore, create, ok, create_folder, resolve_folder_color,
  next_folder_order, greatest_order, increment, max_int, min_int, list_by_user, update, update_over,
}
use shellcn.Service.Folders.Created.{create_folder_lem}
use shellcn.Service.Cycle.{has_folder_cycle, search_from, visit_folder}
use shellcn.Service.Cycle.Rooted.{Cycle}
use shellcn.Service.Cycle.Search.{has_folder_cycle-Cycle, has_folder_cycle_terminates}
use shellcn.Service.Order.{
  FolderOrderInput, save_connection_folder_order, check_from, index_from, update_from,
  nesting_cycle,
}
use shellcn.Service.Order.Rows.{Keyed}
use shellcn.Service.Order.Saved.{Outcome, save_connection_folder_order_lem}
use shellcn.Service.Layout.{
  PlacementInput, save_connection_layout, save_from, placement_key, save_connection_layout_places,
}

abbrev servers : FolderInput
servers = record { name = "Servers"; color = ""; parent_id = "" }

abbrev old_folder : ConnectionFolder
old_folder = record {
  id = "f0";
  user_id = "u1";
  parent_id = "";
  name = "Old";
  color = "blue";
  sort_order = pos 3;
  created_at = 0;
  updated_at = 0;
}

abbrev servers_folder : ConnectionFolder
servers_folder = record {
  id = "f1";
  user_id = "u1";
  parent_id = "";
  name = "Servers";
  color = "slate";
  sort_order = pos 4;
  created_at = 9;
  updated_at = 9;
}

folders_before : FolderStore
folders_before = ("f0", old_folder) ∷ []

servers_created : (create_folder (λ s. s) "u1" servers "f1" 9 folders_before).1 ≡ ok servers_folder
unfolding folders_before create_folder create lookup resolve_folder_color next_folder_order
    greatest_order increment list_by_user ◌+ℤ◌
servers_created = refl

-- After a folder of the greatest order a new one comes first.
order_wraps : next_folder_order (record old_folder { sort_order = max_int } ∷ []) "" ≡ min_int
unfolding next_folder_order greatest_order increment
order_wraps = refl

create_folder_lem_example :
    (create_folder (λ s. s) "u1" servers "f1" 9 folders_before).0
    ≡ insert "f1" servers_folder folders_before
create_folder_lem_example =
    (create_folder_lem (λ s. s) "u1" servers "f1" 9 folders_before servers_folder servers_created).6

abbrev layout : List PlacementInput
layout =
    record { connection_id = "c1"; folder_id = "f0"; sort_order = pos 0 }
    ∷ record { connection_id = "c2"; folder_id = ""; sort_order = pos 1 }
    ∷ []

layout_saved : (save_connection_layout "u1" (λ c. true) (λ f. true) 9 layout []).1 ≡ none
unfolding save_connection_layout save_from
layout_saved = refl

save_connection_layout_places_example :
    lookup
      (placement_key "u1" "c1")
      (save_connection_layout "u1" (λ c. true) (λ f. true) 9 layout []).0
    ≡ some (record {
      user_id = "u1";
      connection_id = "c1";
      folder_id = "f0";
      sort_order = pos 0;
      updated_at = 9;
    })
save_connection_layout_places_example =
    (save_connection_layout_places "u1" (λ c. true) (λ f. true) 9 layout [] layout_saved).1.0

-- Three folders, the third below the second.
abbrev row : String → String → ConnectionFolder
row id parent_id = record {
  id = id;
  user_id = "u1";
  parent_id = parent_id;
  name = id;
  color = "slate";
  sort_order = pos 0;
  created_at = 0;
  updated_at = 0;
}

nested_rows : FolderStore
nested_rows = ("a", row "a" "") ∷ ("b", row "b" "") ∷ ("c", row "c" "b") ∷ []

abbrev move : String → String → FolderOrderInput
move id parent_id = record { folder_id = id; parent_id = parent_id; sort_order = pos 7 }

abbrev new_order : List FolderOrderInput
new_order = move "b" "a" ∷ move "a" "" ∷ []

cyclic_order_refused :
    save_connection_folder_order "u1" 9 (move "b" "c" ∷ []) nested_rows
    ≡ (nested_rows, some nesting_cycle)
unfolding nested_rows save_connection_folder_order check_from index_from list_by_user lookup insert
    has_folder_cycle search_from visit_folder
cyclic_order_refused = refl

new_order_saved : (save_connection_folder_order "u1" 9 new_order nested_rows).1 ≡ none
unfolding nested_rows save_connection_folder_order check_from index_from list_by_user lookup insert
    has_folder_cycle search_from visit_folder update_from update update_over
new_order_saved = refl

nested_rows-IsMap : IsMap nested_rows
unfolding nested_rows lookup
nested_rows-IsMap = (refl, (refl, (refl, tt)))

nested_rows-Keyed : Keyed nested_rows
unfolding nested_rows
nested_rows-Keyed = (refl, (refl, (refl, tt)))

save_connection_folder_order_lem_example :
    Outcome "u1" 9 nested_rows new_order (save_connection_folder_order "u1" 9 new_order nested_rows)
save_connection_folder_order_lem_example =
    save_connection_folder_order_lem "u1" 9 nested_rows nested_rows-IsMap nested_rows-Keyed
      new_order

abbrev cyclic_parents : Map String String
cyclic_parents = ("a", "b") ∷ ("b", "c") ∷ ("c", "b") ∷ []

cyclic_parents_found : has_folder_cycle cyclic_parents ≡ some true
unfolding has_folder_cycle search_from visit_folder lookup insert
cyclic_parents_found = refl

has_folder_cycle_terminates_example : (b : Bool) × (has_folder_cycle cyclic_parents ≡ some b)
has_folder_cycle_terminates_example = has_folder_cycle_terminates cyclic_parents

has_folder_cycle-Cycle_example : Cycle cyclic_parents
has_folder_cycle-Cycle_example = (has_folder_cycle-Cycle cyclic_parents).0.0 cyclic_parents_found
