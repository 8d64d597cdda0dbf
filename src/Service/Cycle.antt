-- ===== src/Service/Cycle.antt =====
-- internal/service/connections.go, `hasFolderCycle`: a depth-first search along the parents, with
-- the maps `visiting` and `visited`. The recursion of `visit` runs on fuel; `none` is out of fuel.
pub mod Rooted
pub mod Search
use shellcn.Prelude.{
  ℕ, zero, suc, ◌+◌, String, Bool, true, false, not, ◌||◌, List, [], ◌∷◌, Option, none, some, ◌==◌,
  string_eq, if◌then◌else◌, length,
}
use shellcn.Prelude.Map.{Map, lookup, insert}

-- `m[id]`, for a missing key the zero value.
abbrev pub flag_of : Option Bool → Bool
flag_of none = false
flag_of (some b) = b

abbrev pub flag : String → Map String Bool → Bool
flag id m = flag_of (lookup id m)

abbrev pub text_of : Option String → String
text_of none = ""
text_of (some s) = s

pub record Marks : Type 0 where
  pub visiting : Map String Bool
  pub visited : Map String Bool

module _ (parent_by_id : Map String String) where
  abbrev pub parent : String → String
  parent id = text_of (lookup id parent_by_id)

  -- What `visit` does once its recursive call has returned.
  abbrev pub leave : String → Option (Marks × Bool) → Option (Marks × Bool)
  leave id none = none
  leave id (some (s, true)) = some (s, true)
  leave id (some (s, false)) =
      some (
        record { visiting = insert id false s.visiting; visited = insert id true s.visited },
        false,
      )

  unfoldable pub visit_folder : ℕ → String → Marks → Option (Marks × Bool)
  visit_folder zero id s = none
  visit_folder (suc fuel) id s =
      let rest =
        visit_folder fuel (parent id) (record s { visiting = insert id true s.visiting }) in
      if id == "" || flag id s.visited
      then some (s, false)
      else if flag id s.visiting
      then some (s, true)
      else leave id rest

  abbrev pub continue_with : Option (Marks × Bool) → (Marks → Option Bool) → Option Bool
  continue_with none go = none
  continue_with (some (s, true)) go = some true
  continue_with (some (s, false)) go = go s

  -- The loop over the keys.
  unfoldable pub search_from : ℕ → Map String String → Marks → Option Bool
  search_from fuel [] s = some false
  search_from fuel ((id, p) ∷ rest) s =
      continue_with (visit_folder fuel id s) (λ s'. search_from fuel rest s')

  unfoldable pub has_folder_cycle : Option Bool
  unfolding search_from
  has_folder_cycle =
      search_from (length parent_by_id + 2) parent_by_id (record { visiting = []; visited = [] })
