-- ===== src/Service/Order/Rows.antt =====
-- The rows of a user, read through the two maps that the checks use.
use shellcn.Prelude.{
  ◌≡◌, refl, inl, inr, String, [], ◌∷◌, Option, none, some, ◌==◌, string_eq, if◌then◌else◌, arith,
  Bool-cases,
}
use shellcn.Prelude.Map.{Map, lookup, insert, lookup-insert, IsMap}
use shellcn.Service.Folders.{ConnectionFolder, FolderStore, list_by_user}
use shellcn.Service.Order.{index_from, folders_by_id, parents_by_id}

-- Every row stands under its own id.
abbrev pub Keyed : FolderStore → Type 0
Keyed [] = Unit
Keyed ((k, f) ∷ m) = (f.id ≡ k) × Keyed m

pub Keyed-lookup :
    (a : String) (f : ConnectionFolder) (m : FolderStore) → Keyed m → lookup a m ≡ some f → f.id ≡ a
unfolding lookup
Keyed-lookup a f [] k e = absurd (cc)
Keyed-lookup a f ((j, g) ∷ m) k e =
    ground (arith, k.0, Keyed-lookup a f m k.1, e, string_eq.same_iff j a)

-- The row, where the user is_owned it.
abbrev pub owned : String → Option ConnectionFolder → Option ConnectionFolder
owned user_id none = none
owned user_id (some f) = if f.user_id == user_id then some f else none

abbrev pub overlay {ℓ} :
    {V : Type ℓ} → (ConnectionFolder → V) → Option ConnectionFolder → Option V → Option V
overlay g none below = below
overlay g (some f) below = some (g f)

pub lookup-index_from {ℓ} :
    {V : Type ℓ}
    → (g : ConnectionFolder → V) (user_id a : String) (m : FolderStore) (above : Map String V)
    → IsMap m
    → Keyed m
    → lookup a (index_from g (list_by_user user_id m) above)
      ≡ overlay g (owned user_id (lookup a m)) (lookup a above)
unfolding lookup index_from list_by_user
lookup-index_from g user_id a [] above d k = refl
lookup-index_from g user_id a ((j, f) ∷ m) above d k = elim (Bool-cases (f.user_id == user_id)) [
  | inl e ↦ elim (Bool-cases (j == a)) [
    | inl b ↦
        let same = (string_eq.same_iff j a).0 b in
        ground (
          arith,
          e,
          b,
          d.0,
          k.0,
          same,
          lookup-index_from g user_id a m (insert f.id (g f) above) d.1 k.1,
          lookup-insert f.id a (g f) above,
          string_eq.same_iff f.id a,
        )
    | inr b ↦ ground (
      arith,
      e,
      b,
      k.0,
      lookup-index_from g user_id a m (insert f.id (g f) above) d.1 k.1,
      lookup-insert f.id a (g f) above,
      string_eq.same_iff f.id a,
      string_eq.same_iff j a,
    )
  ]
  | inr e ↦ elim (Bool-cases (j == a)) [
    | inl b ↦ ground (
      arith,
      e,
      b,
      d.0,
      (string_eq.same_iff j a).0 b,
      lookup-index_from g user_id a m above d.1 k.1,
    )
    | inr b ↦ ground (arith, e, b, lookup-index_from g user_id a m above d.1 k.1)
  ]
]

abbrev pub parent_of : Option ConnectionFolder → Option String
parent_of none = none
parent_of (some f) = some f.parent_id

pub lookup-folders_by_id :
    (user_id a : String) (m : FolderStore)
    → IsMap m
    → Keyed m
    → lookup a (folders_by_id user_id m) ≡ owned user_id (lookup a m)
unfolding lookup
lookup-folders_by_id user_id a m d k = ground (arith, lookup-index_from (λ f. f) user_id a m [] d k)

pub lookup-parents_by_id :
    (user_id a : String) (m : FolderStore)
    → IsMap m
    → Keyed m
    → lookup a (parents_by_id user_id m) ≡ parent_of (owned user_id (lookup a m))
unfolding lookup
lookup-parents_by_id user_id a m d k =
    ground (arith, lookup-index_from (λ f. f.parent_id) user_id a m [] d k)
