-- ===== src/Prelude/Map/Each.antt =====
-- What holds of every entry of a map, and how writes and deletions carry it.
use mathlib.Core.Path.{subst}
use shellcn.Prelude.{◌≡◌, Bool, [], ◌∷◌, some, arith, Comparable, ◌==◌, Bool-cases, inl, inr, some}
use shellcn.Prelude.Map.{Map, lookup, insert, delete, delete_if}

module _ {ℓ κ μ} {K : Type ℓ} {V : Type κ} where
  abbrev pub Each : (K → V → Type μ) → Map K V → Type μ
  Each P [] = Unit
  Each P ((k, v) ∷ rest) = P k v × Each P rest

module _ {ℓ κ μ ν} {K : Type ℓ} {V : Type κ} {P : K → V → Type μ} {Q : K → V → Type ν} where
  pub Each-imp : ((k : K) (v : V) → P k v → Q k v) → (m : Map K V) → Each P m → Each Q m
  Each-imp f [] h = tt
  Each-imp f ((k, v) ∷ rest) h = (f k v h.0, Each-imp f rest h.1)

module _ {ℓ κ μ} {K : Type ℓ} {V : Type κ} ⦃c : Comparable K⦄ (P : K → V → Type μ) where
  pub Each-insert : (k : K) (v : V) (m : Map K V) → P k v → Each P m → Each P (insert k v m)
  unfolding insert
  Each-insert k v [] p h = (p, tt)
  Each-insert k v ((j, w) ∷ rest) p h = elim (Bool-cases (j == k)) [
    | inl e ↦ rw e (p, h.1)
    | inr e ↦ rw e (h.0, Each-insert k v rest p h.1)
  ]

  pub Each-delete : (k : K) (m : Map K V) → Each P m → Each P (delete k m)
  unfolding delete
  Each-delete k [] h = tt
  Each-delete k ((j, w) ∷ rest) h = elim (Bool-cases (j == k)) [
    | inl e ↦ rw e (Each-delete k rest h.1)
    | inr e ↦ rw e (h.0, Each-delete k rest h.1)
  ]

  pub Each-delete_if : (p : K → V → Bool) (m : Map K V) → Each P m → Each P (delete_if p m)
  unfolding delete_if
  Each-delete_if p [] h = tt
  Each-delete_if p ((j, w) ∷ rest) h = elim (Bool-cases (p j w)) [
    | inl e ↦ rw e (Each-delete_if p rest h.1)
    | inr e ↦ rw e (h.0, Each-delete_if p rest h.1)
  ]

  pub Each-lookup : (k : K) {v : V} (m : Map K V) → lookup k m ≡ some v → Each P m → P k v
  unfolding lookup
  Each-lookup k [] e h = absurd (cc)
  Each-lookup k {v} ((j, w) ∷ rest) e h = elim (Bool-cases (j == k)) [
    | inl p ↦
        let at : w ≡ v = ground (arith, p) in
        subst (λ t. P k t) at (subst (λ t. P t w) ((c.same_iff j k).0 p) h.0)
    | inr p ↦ Each-lookup k rest (ground (arith, p)) h.1
  ]
