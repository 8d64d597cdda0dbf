-- ===== src/Store/Scan.antt =====
-- internal/store/memory.go: the loops that look through a table for a value, and the tables that
-- take a row only if no other row is the same by some of its fields.
use shellcn.Prelude.{
  ◌≡◌, ap, ◌∙◌, sym, inl, inr, String, Bool, true, false, [], ◌∷◌, Option, none, some, arith, ◌==◌,
  string_eq, if◌then◌else◌, Bool-cases, Option-cases, beq_refl,
}
use shellcn.Prelude.Map.{Map, lookup, insert, delete, lookup-insert, lookup-delete, IsMap}
use shellcn.Store.Errors.{Error, conflict}

module _ {V : Type 0} where
  -- `for _, v := range m { if p(v) { return v, nil } }`
  unfoldable pub find_value : (V → Bool) → Map String V → Option V
  find_value p [] = none
  find_value p ((k, v) ∷ m) = let rest = find_value p m in if p v then some v else rest

  abbrev pub created : String → V → Map String V → Option V → Map String V × Option Error
  created id v m none = (insert id v m, none)
  created id v m (some other) = (m, some conflict)

  -- `Create` of the tables that look for a row that is the same as the new one.
  unfoldable pub create_unless :
      (V → V → Bool) → String → V → Map String V → Map String V × Option Error
  create_unless same id v m = created id v m (find_value (λ e. same e v) m)

  below :
      (j k : String) (w v : V) (m : Map String V)
      → lookup j m ≡ none
      → lookup k m ≡ some v
      → lookup k ((j, w) ∷ m) ≡ some v
  unfolding lookup
  below j k w v m n e = elim (Bool-cases (j == k)) [
    | inl b ↦
        let same = ap (λ (t : String). lookup t m) ((string_eq.same_iff j k).0 b) in
        absurd (ground (arith, n, e, same))
    | inr b ↦ rw b e
  ]

  pub find_value-none :
      (p : V → Bool) (k : String) (v : V) (m : Map String V)
      → find_value p m ≡ none
      → lookup k m ≡ some v
      → p v ≡ false
  unfolding find_value lookup
  find_value-none p k v [] h e = absurd (cc)
  find_value-none p k v ((j, w) ∷ m) h e = ground (arith, h, e, find_value-none p k v m)

  pub find_value-lookup :
      (p : V → Bool) (v : V) (m : Map String V)
      → IsMap m
      → find_value p m ≡ some v
      → (k : String) × (lookup k m ≡ some v) × (p v ≡ true)
  unfolding find_value lookup
  find_value-lookup p v [] h e = absurd (cc)
  find_value-lookup p v ((j, w) ∷ m) h e = elim (Bool-cases (p w)) [
    | inl b ↦ (j, ground (arith, beq_refl j, b, e), ground (arith, b, e))
    | inr b ↦
        let (k, l, q) = find_value-lookup p v m h.1 (ground (arith, b, e)) in
        (k, below j k w v m h.0 l, q)
  ]

  -- No two rows are the same.
  abbrev pub OneEach : (V → V → Bool) → Map String V → Type 0
  OneEach same m =
      (j k : String) (v w : V) → lookup j m ≡ some v → lookup k m ≡ some w → same v w ≡ true → j ≡ k

  pub insert-OneEach :
      (same : V → V → Bool) (id : String) (v : V) (m : Map String V)
      → ((a b : V) → same a b ≡ same b a)
      → find_value (λ e. same e v) m ≡ none
      → OneEach same m
      → OneEach same (insert id v m)
  insert-OneEach same id v m s n h j k a b p q r = elim (Bool-cases (id == j)) [
    | inl x ↦ elim (Bool-cases (id == k)) [
      | inl y ↦ sym ((string_eq.same_iff id j).0 x) ∙ (string_eq.same_iff id k).0 y
      | inr y ↦ absurd (
          ground (
            arith,
            x,
            lookup-insert id j v m,
            lookup-insert id k v m,
            find_value-none (λ e. same e v) k b m n,
            s v b,
            p,
            q,
            r,
          ))
    ]
    | inr x ↦ elim (Bool-cases (id == k)) [
      | inl y ↦ absurd (
          ground (
            arith,
            x,
            y,
            lookup-insert id j v m,
            lookup-insert id k v m,
            find_value-none (λ e. same e v) j a m n,
            p,
            q,
            r,
          ))
      | inr y ↦
          h j k a b (ground (arith, x, lookup-insert id j v m, p))
            (ground (arith, y, lookup-insert id k v m, q)) r
    ]
  ]

  -- Deleting a row leaves one of each.
  pub delete-OneEach :
      (same : V → V → Bool) (id : String) (m : Map String V)
      → OneEach same m
      → OneEach same (delete id m)
  delete-OneEach same id m h j k a b p q r =
      h j k a b (ground (arith, lookup-delete id j m, p)) (ground (arith, lookup-delete id k m, q))
        r

  -- A table with one of each has one answer to a search for what is the same as a row in it.
  pub find_value_only :
      (same : V → V → Bool) (p : V → Bool) (k : String) (v : V) (m : Map String V)
      → IsMap m
      → OneEach same m
      → ((w : V) → p w ≡ true → same w v ≡ true)
      → lookup k m ≡ some v
      → p v ≡ true
      → find_value p m ≡ some v
  find_value_only same p k v m w h s e t = elim (Option-cases (find_value p m)) [
    | inl n ↦ absurd (cc (find_value-none p k v m n e, t))
    | inr (u, f) ↦
        let (j, l, q) = find_value-lookup p u m w f in
        let i = ap (λ (x : String). lookup x m) (h j k u v l e (s u q)) in f ∙ (sym l ∙ i ∙ e)
  ]
