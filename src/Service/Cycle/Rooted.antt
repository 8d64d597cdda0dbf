-- ===== src/Service/Cycle/Rooted.antt =====
-- Folders that reach the root along their parents, and those that are above themselves.
use shellcn.Prelude.{
  ℕ, zero, suc, ◌≤◌, ◌≡◌, ◌≢◌, refl, ap, inl, inr, String, false, none, arith, ◌==◌, string_eq,
  Bool-cases,
}
use shellcn.Prelude.Map.{Map, lookup}
use shellcn.Service.Cycle.{parent}

pub not_empty : (id : String) → (id == "") ≡ false → id ≢ ""
not_empty id n e = ground (arith, string_eq.same_iff id "", n, e)

module _ (parents : Map String String) where
  -- From a folder up to another, along parents.
  pub data Up : String → String → Type 0 where
    here : (a : String) → Up a a
    step : (a b : String) → a ≢ "" → Up (parent parents a) b → Up a b

  -- A folder that is above itself.
  abbrev pub Cycle : Type 0
  Cycle = (a : String) × (a ≢ "") × Up (parent parents a) a

  -- The root is `n` parents away.
  abbrev pub RootedIn : ℕ → String → Type 0
  RootedIn zero a = a ≡ ""
  RootedIn (suc n) a = (a ≢ "") × RootedIn n (parent parents a)

  abbrev pub Rooted : String → Type 0
  Rooted a = (n : ℕ) × RootedIn n a

  pub extend : (a b : String) → Up a b → b ≢ "" → Up a (parent parents b)
  extend a b (here x) n = step x (parent parents x) n (here (parent parents x))
  extend a b (step x y k u) n = step x (parent parents y) k (extend (parent parents x) y u n)

  -- A root is at one distance only.
  RootedIn-unique : (n k : ℕ) (a : String) → RootedIn n a → RootedIn k a → n ≡ k
  RootedIn-unique zero zero a r q = refl
  RootedIn-unique zero (suc k) a r (new, q) = absurd (new r)
  RootedIn-unique (suc n) zero a (new, r) q = absurd (new q)
  RootedIn-unique (suc n) (suc k) a (new, r) (new', q) =
      ap suc (RootedIn-unique n k (parent parents a) r q)

  -- Going up comes nearer to the root.
  RootedIn-Up : (n : ℕ) (a b : String) → Up a b → RootedIn n a → (k : ℕ) × (k ≤ n) × RootedIn k b
  RootedIn-Up n a b (here x) r = (n, omega arith, r)
  RootedIn-Up zero a b (step x y new u) r = absurd (new r)
  RootedIn-Up (suc n) a b (step x y new u) (new', r) =
      let (k, le, q) = RootedIn-Up n (parent parents x) y u r in (k, omega (arith, le), q)

  RootedIn-Cycle : (n : ℕ) (a : String) → RootedIn n a → a ≢ "" → Up (parent parents a) a → ⊥
  RootedIn-Cycle zero a r new u = new r
  RootedIn-Cycle (suc n) a (new', r) new u =
      let (k, le, q) = RootedIn-Up n (parent parents a) a u r in
      omega (arith, le, RootedIn-unique k (suc n) a q (new', r))

  pub Cycle-Rooted : Cycle → ((a : String) → Rooted a) → ⊥
  Cycle-Rooted (a, new, u) rooted = RootedIn-Cycle (rooted a).0 a (rooted a).1 new u

  pub Rooted-outside : (a : String) → lookup a parents ≡ none → Rooted a
  Rooted-outside a e = elim (Bool-cases (a == "")) [
    | inl f ↦ (0, (string_eq.same_iff a "").0 f)
    | inr n ↦ (1, (not_empty a n, rw e refl))
  ]
