-- ===== src/Session/Counting.antt =====
-- How the count of a user's sessions follows the table and the heap.
use shellcn.Prelude.{
  ℕ, ◌+◌, ◌≤◌, ◌≡◌, refl, String, Bool, [], ◌∷◌, Option, none, some, arith, ◌==◌, string_eq, nat_eq,
  if◌then◌else◌, Bool-cases, inl, inr,
}
use shellcn.Prelude.Map.{Map, lookup, insert, delete, delete_if, lookup-insert}
use shellcn.Prelude.Map.Each.{Each}
use shellcn.Session.Types.{Key, key_eq, Entry}
use shellcn.Session.Registry.{count_user, is_owner}

-- The entry at an address is there, and is one for the key.
abbrev pub HasKey : Key → Option Entry → Type 0
HasKey key none = ⊥
HasKey key (some e) = e.key ≡ key

abbrev pub Linked : Map ℕ Entry → Map Key ℕ → Type 0
Linked heap = Each (λ key a. HasKey key (lookup a heap))

abbrev pub one_if : Bool → ℕ
one_if b = if b then 1 else 0

module _ (user : String) (heap : Map ℕ Entry) where
  pub count_user-insert :
      (key : Key) (a : ℕ) (table : Map Key ℕ)
      → lookup key table ≡ none
      → count_user user (insert key a table) heap
        ≡ count_user user table heap + one_if (is_owner user (lookup a heap))
  unfolding count_user insert lookup
  count_user-insert key a [] h = omega arith
  count_user-insert key a ((j, b) ∷ rest) h = elim (Bool-cases (j == key)) [
    | inl e ↦ absurd (ground (arith, e))
    | inr e ↦ rw e (omega (arith, count_user-insert key a rest (ground (arith, e))))
  ]

  pub count_user-delete :
      (key : Key) (table : Map Key ℕ)
      → count_user user (delete key table) heap ≤ count_user user table heap
  unfolding count_user delete
  count_user-delete key [] = omega arith
  count_user-delete key ((j, b) ∷ rest) = elim (Bool-cases (j == key)) [
    | inl e ↦ rw e (omega (arith, count_user-delete key rest))
    | inr e ↦ rw e (omega (arith, count_user-delete key rest))
  ]

  pub count_user-delete_if :
      (p : Key → ℕ → Bool) (table : Map Key ℕ)
      → count_user user (delete_if p table) heap ≤ count_user user table heap
  unfolding count_user delete_if
  count_user-delete_if p [] = omega arith
  count_user-delete_if p ((j, b) ∷ rest) = elim (Bool-cases (p j b)) [
    | inl e ↦ rw e (omega (arith, count_user-delete_if p rest))
    | inr e ↦ rw e (omega (arith, count_user-delete_if p rest))
  ]

  -- A write to an entry that keeps its user keeps the count.
  pub count_user-update :
      (a : ℕ) (e e' : Entry) (table : Map Key ℕ)
      → lookup a heap ≡ some e
      → e'.user_id ≡ e.user_id
      → count_user user table (insert a e' heap) ≡ count_user user table heap
  unfolding count_user
  count_user-update a e e' [] at u = refl
  count_user-update a e e' ((j, b) ∷ rest) at u =
      ground
        (arith, lookup-insert a b e' heap, nat_eq.same_iff a b, count_user-update a e e' rest at u)

  -- So does a new entry, which no key of the table leads to.
  pub count_user-alloc :
      (a : ℕ) (e : Entry) (table : Map Key ℕ)
      → lookup a heap ≡ none
      → Linked heap table
      → count_user user table (insert a e heap) ≡ count_user user table heap
  unfolding count_user
  count_user-alloc a e [] at l = refl
  count_user-alloc a e ((j, b) ∷ rest) at l =
      ground
        (arith, lookup-insert a b e heap, nat_eq.same_iff a b, count_user-alloc a e rest at l.1)

module _ (heap : Map ℕ Entry) where
  pub Linked-update :
      (a : ℕ) (e e' : Entry) (table : Map Key ℕ)
      → lookup a heap ≡ some e
      → e'.key ≡ e.key
      → Linked heap table
      → Linked (insert a e' heap) table
  Linked-update a e e' [] at k l = tt
  Linked-update a e e' ((j, b) ∷ rest) at k l = (
    ground (arith, l.0, lookup-insert a b e' heap, nat_eq.same_iff a b),
    Linked-update a e e' rest at k l.1,
  )

  pub Linked-alloc :
      (a : ℕ) (e : Entry) (table : Map Key ℕ)
      → lookup a heap ≡ none
      → Linked heap table
      → Linked (insert a e heap) table
  Linked-alloc a e [] at l = tt
  Linked-alloc a e ((j, b) ∷ rest) at l = (
    ground (arith, l.0, lookup-insert a b e heap, nat_eq.same_iff a b),
    Linked-alloc a e rest at l.1,
  )
