-- ===== src/Store/Grants.antt =====
-- internal/store/memory.go, memGrantStore: who may use a connection of another user.
use shellcn.Prelude.{
  ◌≡◌, inl, inr, String, Bool, ◌&&◌, List, [], ◌∷◌, Option, some, arith, ◌==◌, string_eq,
  if◌then◌else◌, Option-cases,
}
use shellcn.Prelude.Map.{Map, lookup, delete, IsMap, insert-IsMap, delete-IsMap}
use shellcn.Store.Errors.{Error}
use shellcn.Store.Scan.{
  find_value, create_unless, OneEach, insert-OneEach, delete-OneEach, find_value_only,
}

-- internal/models/connection.go
pub record Grant : Type 0 where
  pub id : String
  pub connection_id : String
  pub subject_id : String
  pub access : String

abbrev pub Grants : Type 0
Grants = Map String Grant

abbrev pub of_pair : String → String → Grant → Bool
of_pair connection_id subject_id g = g.connection_id == connection_id && g.subject_id == subject_id

abbrev pub same_pair : Grant → Grant → Bool
same_pair e g = of_pair g.connection_id g.subject_id e

unfoldable pub create : Grant → Grants → Grants × Option Error
unfolding create_unless
create g m = create_unless same_pair g.id g m

unfoldable pub get : String → String → Grants → Option Grant
unfolding find_value
get connection_id subject_id m = find_value (of_pair connection_id subject_id) m

-- `for _, g := range s.m { if p(g) { out = append(out, g) } }`
unfoldable pub list_if : (Grant → Bool) → Grants → List Grant
list_if p [] = []
list_if p ((id, g) ∷ m) = let rest = list_if p m in if p g then g ∷ rest else rest

unfoldable pub list_by_connection : String → Grants → List Grant
unfolding list_if
list_by_connection connection_id m = list_if (λ g. g.connection_id == connection_id) m

unfoldable pub list_by_subject : String → Grants → List Grant
unfolding list_if
list_by_subject subject_id m = list_if (λ g. g.subject_id == subject_id) m

-- A call that changes the table.
pub data Call : Type 0 where
  creates : Grant → Call
  deletes : String → Call

unfoldable pub step : Call → Grants → Grants
step (creates g) m = (create g m).0
step (deletes id) m = delete id m

unfoldable pub run : List Call → Grants → Grants
run [] m = m
run (c ∷ cs) m = run cs (step c m)

record IsGrants (m : Grants) : Type 0 where
  is_map : IsMap m
  one_each : OneEach same_pair m

same_pair_sym : (a b : Grant) → same_pair a b ≡ same_pair b a
same_pair_sym a b = ground (
  arith,
  string_eq.same_iff a.connection_id b.connection_id,
  string_eq.same_iff b.connection_id a.connection_id,
  string_eq.same_iff a.subject_id b.subject_id,
  string_eq.same_iff b.subject_id a.subject_id,
)

create-IsGrants : (g : Grant) (m : Grants) → IsGrants m → IsGrants (create g m).0
unfolding create create_unless
create-IsGrants g m w = elim (Option-cases (find_value (λ e. same_pair e g) m)) [
  | inl n ↦
      rw (n, create)
        (record {
          is_map = insert-IsMap g.id g m w.is_map;
          one_each = insert-OneEach same_pair g.id g m same_pair_sym n w.one_each;
        })
  | inr (e, f) ↦ rw (f, create) w
]

run-IsGrants : (cs : List Call) (m : Grants) → IsGrants m → IsGrants (run cs m)
unfolding run step
run-IsGrants [] m w = w
run-IsGrants (creates g ∷ cs) m w = run-IsGrants cs (create g m).0 (create-IsGrants g m w)
run-IsGrants (deletes id ∷ cs) m w = run-IsGrants cs (delete id m) (record {
  is_map = delete-IsMap id m w.is_map;
  one_each = delete-OneEach same_pair id m w.one_each;
})

-- Whatever grants were created and deleted since the store was made, a grant that stands in it is
-- the one that Get finds for its connection and user, in whatever order the table is read.
pub run-get :
    (cs : List Call) (id : String) (g : Grant)
    → lookup id (run cs []) ≡ some g
    → get g.connection_id g.subject_id (run cs []) ≡ some g
unfolding get lookup
run-get cs id g e =
    let w = run-IsGrants cs [] (record { is_map = tt; one_each = λ j k v u p q r. absurd (cc) }) in
    find_value_only same_pair (of_pair g.connection_id g.subject_id) id g (run cs []) w.is_map
      w.one_each (λ u h. h) e
      (ground (
        arith,
        string_eq.same_iff g.connection_id g.connection_id,
        string_eq.same_iff g.subject_id g.subject_id,
      ))
