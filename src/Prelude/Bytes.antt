-- ===== src/Prelude/Bytes.antt =====
-- Texts as lists of bytes, and the parts of lists.
use shellcn.Prelude.{ℕ, zero, suc, ◌+◌, ◌-◌, ◌≤◌, ◌≡◌, refl, ap, List, [], ◌∷◌, ◌++◌, length, arith}

abbrev pub Bytes : Type 0
Bytes = List ℕ

module _ {ℓ} {A : Type ℓ} where
  -- `s[:n]` and `s[n:]`, also where n is too large.
  abbrev pub take : ℕ → List A → List A
  take zero l = []
  take (suc n) [] = []
  take (suc n) (x ∷ l) = x ∷ take n l

  abbrev pub drop : ℕ → List A → List A
  drop zero l = l
  drop (suc n) [] = []
  drop (suc n) (x ∷ l) = drop n l

  pub length-take : (n : ℕ) (l : List A) → length (take n l) ≤ n
  length-take zero l = omega arith
  length-take (suc n) [] = omega arith
  length-take (suc n) (x ∷ l) = omega (arith, length-take n l)

  pub length-drop : (n : ℕ) (l : List A) → length (drop n l) ≡ length l - n
  length-drop zero l = omega arith
  length-drop (suc n) [] = omega arith
  length-drop (suc n) (x ∷ l) = ground (arith, length-drop n l)

  pub length-take_all : (n : ℕ) (l : List A) → n ≤ length l → length (take n l) ≡ n
  length-take_all zero l h = refl
  length-take_all (suc n) [] h = absurd (omega (arith, h))
  length-take_all (suc n) (x ∷ l) h = ap suc (length-take_all n l (omega (arith, h)))

  pub take-drop : (n : ℕ) (l : List A) → take n l ++ drop n l ≡ l
  take-drop zero l = refl
  take-drop (suc n) [] = refl
  take-drop (suc n) (x ∷ l) = ap (λ t. x ∷ t) (take-drop n l)

  drop-nil : (n : ℕ) → drop n [] ≡ []
  drop-nil zero = refl
  drop-nil (suc n) = refl

  pub drop-drop : (n k m : ℕ) (l : List A) → m ≡ n + k → drop k (drop n l) ≡ drop m l
  drop-drop zero k m l e = ap (λ (j : ℕ). drop j l) (omega (arith, e))
  drop-drop (suc n) k zero l e = absurd (omega (arith, e))
  drop-drop (suc n) k (suc m) [] e = drop-nil k
  drop-drop (suc n) k (suc m) (x ∷ l) e = drop-drop n k m l (omega (arith, e))

-- `strings.Join`
abbrev pub join_rest : Bytes → List Bytes → Bytes
join_rest sep [] = []
join_rest sep (p ∷ parts) = sep ++ (p ++ join_rest sep parts)

abbrev pub join : Bytes → List Bytes → Bytes
join sep [] = []
join sep (p ∷ parts) = p ++ join_rest sep parts
