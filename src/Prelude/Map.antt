-- ===== src/Prelude/Map.antt =====
-- Go's maps as association lists. The order of the list is the order in which a `range` loop meets
-- the entries, which Go leaves open, so what is proved for every list holds for every order.
pub mod Each
use shellcn.Prelude.{
  ◌≡◌, refl, Bool, List, [], ◌∷◌, Option, none, some, arith, Comparable, ◌==◌, if◌then◌else◌,
}

abbrev pub Map {ℓ κ} : Type ℓ → Type κ → Type (ℓ ⊔ κ)
Map K V = List (K × V)

-- What `lookup` finds after a loop that deletes the entries with `p`.
abbrev pub keep_unless {κ} : {V : Type κ} → (V → Bool) → Option V → Option V
keep_unless p none = none
keep_unless p (some v) = if p v then none else some v

module _ {ℓ κ} {K : Type ℓ} {V : Type κ} ⦃c : Comparable K⦄ where
  -- `v, ok := m[k]`
  unfoldable pub lookup : K → Map K V → Option V
  lookup k [] = none
  lookup k ((first, v) ∷ rest) = if first == k then some v else lookup k rest

  -- `delete(m, k)`
  unfoldable pub delete : K → Map K V → Map K V
  delete k [] = []
  delete k ((first, v) ∷ rest) =
      let others = delete k rest in if first == k then others else (first, v) ∷ others

  -- `m[k] = v`
  unfoldable pub insert : K → V → Map K V → Map K V
  insert k v [] = (k, v) ∷ []
  insert k v ((first, old) ∷ rest) =
      if first == k then (k, v) ∷ rest else (first, old) ∷ insert k v rest

  -- No key stands twice.
  abbrev pub IsMap : Map K V → Type κ
  IsMap [] = Unit
  IsMap ((j, w) ∷ m) = (lookup j m ≡ none) × IsMap m

  -- A read of `asked` after a write or a deletion at `k`.
  pub lookup-insert :
      (k asked : K) (v : V) (table : Map K V)
      → lookup asked (insert k v table) ≡ (if k == asked then some v else lookup asked table)
  unfolding lookup insert
  lookup-insert k asked v [] = refl
  lookup-insert k asked v ((first, old) ∷ rest) =
      let below = lookup-insert k asked v rest in
      ground (arith, below, c.same_iff first k, c.same_iff first asked, c.same_iff k asked)

  pub lookup-delete :
      (k asked : K) (table : Map K V)
      → lookup asked (delete k table) ≡ (if k == asked then none else lookup asked table)
  unfolding lookup delete
  lookup-delete k asked [] = ground arith
  lookup-delete k asked ((first, old) ∷ rest) =
      let below = lookup-delete k asked rest in
      ground (arith, below, c.same_iff first k, c.same_iff first asked, c.same_iff k asked)

  pub insert-IsMap : (k : K) (v : V) (m : Map K V) → IsMap m → IsMap (insert k v m)
  unfolding lookup insert
  insert-IsMap k v [] h = (refl, tt)
  insert-IsMap k v ((i, w) ∷ m) h =
      ground (arith, c.same_iff i k, c.same_iff k i, lookup-insert k i v m, insert-IsMap k v m)

  pub delete-IsMap : (k : K) (m : Map K V) → IsMap m → IsMap (delete k m)
  unfolding lookup delete
  delete-IsMap k [] h = tt
  delete-IsMap k ((i, w) ∷ m) h =
      ground (arith, c.same_iff i k, c.same_iff k i, lookup-delete k i m, delete-IsMap k m)

  -- `for k, v := range m { if p(k, v) { delete(m, k) } }`
  unfoldable pub delete_if : (K → V → Bool) → Map K V → Map K V
  delete_if p [] = []
  delete_if p ((j, w) ∷ m) = let rest = delete_if p m in if p j w then rest else (j, w) ∷ rest

  pub lookup-delete_if :
      (p : K → V → Bool) (k : K) (m : Map K V)
      → IsMap m
      → lookup k (delete_if p m) ≡ keep_unless (p k) (lookup k m)
  unfolding lookup delete_if
  lookup-delete_if p k [] h = refl
  lookup-delete_if p k ((i, w) ∷ m) h = ground (arith, c.same_iff i k, lookup-delete_if p k m h.1)

  pub delete_if-IsMap : (p : K → V → Bool) (m : Map K V) → IsMap m → IsMap (delete_if p m)
  unfolding lookup delete_if
  delete_if-IsMap p [] h = tt
  delete_if-IsMap p ((i, w) ∷ m) h =
      ground (arith, lookup-delete_if p i m h.1, delete_if-IsMap p m h.1)
