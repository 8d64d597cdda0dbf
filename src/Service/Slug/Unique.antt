-- ===== src/Service/Slug/Unique.antt =====
-- When the slugs of connections of one name differ, and when they do not.
use shellcn.Prelude.{
  ℕ, zero, suc, ◌+◌, ◌≤◌, ◌≡◌, refl, sym, ap, ◌∙◌, inl, inr, true, false, List, [], ◌∷◌, ◌++◌, ◌==◌,
  nat_eq, length, length-append, ltb, Bool-cases, arith, if_elim, All,
}
use shellcn.Prelude.Bytes.{Bytes, take, length-take}
use shellcn.Service.Slug.{
  trim_right, trim_dashes, slugify, remove_dashes, is_nothing, short_id, named, with_short,
  cut_label, connection_slug,
}
use shellcn.Service.Slug.Label.{
  starts_well, ends_well, StartsWord, trim_left-same, trim_right-same, StartsWord-append,
  named-StartsWord, slugify-starts_well,
}

take-append : (n : ℕ) (s t : Bytes) → n ≤ length s → take n (s ++ t) ≡ take n s
take-append zero s t h = refl
take-append (suc n) [] t h = absurd (omega (arith, h))
take-append (suc n) (b ∷ s) t h = ap (λ r. b ∷ r) (take-append n s t (omega (arith, h)))

cut_long :
    (base short : Bytes)
    → 63 ≤ length base
    → is_nothing short ≡ false
    → cut_label (with_short base short) ≡ take 63 base
cut_long base [] long h = absurd (cc)
cut_long base (b ∷ short) long h =
    let over : ltb 63 (length (base ++ (b'-' ∷ b ∷ short))) ≡ true =
      ground (arith, length-append base (b'-' ∷ b ∷ short), long) in
    rw over (take-append 63 base (b'-' ∷ b ∷ short) long)

-- Connections whose name comes to 63 bytes or more have one slug, whatever their ids are, if these
-- have something but dashes.
pub connection_slug-long :
    (runes : List ℕ) (id other : Bytes)
    → 63 ≤ length (named (slugify runes))
    → is_nothing (short_id id) ≡ false
    → is_nothing (short_id other) ≡ false
    → connection_slug runes id ≡ connection_slug runes other
unfolding connection_slug
connection_slug-long runes id other long h k =
    let base = named (slugify runes) in
    ap trim_dashes
      (cut_long base (short_id id) long h ∙ sym (cut_long base (short_id other) long k))

abbrev AllPlain : Bytes → Type 0
AllPlain s = All (λ b. (b == b'-') ≡ false) s

AllPlain-remove_dashes : (s : Bytes) → AllPlain (remove_dashes s)
unfolding remove_dashes
AllPlain-remove_dashes [] = tt
AllPlain-remove_dashes (b ∷ s) = ground (arith, AllPlain-remove_dashes s)

AllPlain-take : (n : ℕ) (s : Bytes) → AllPlain s → AllPlain (take n s)
AllPlain-take zero s h = tt
AllPlain-take (suc n) [] h = tt
AllPlain-take (suc n) (b ∷ s) h = (h.0, AllPlain-take n s h.1)

AllPlain-short_id : (id : Bytes) → AllPlain (short_id id)
unfolding short_id
AllPlain-short_id id =
    let d = AllPlain-remove_dashes id in
    if_elim AllPlain (ltb 8 (length (remove_dashes id))) (take 8 (remove_dashes id))
      (remove_dashes id) (λ t. AllPlain-take 8 (remove_dashes id) d) (λ f. d)

length-short_id : (id : Bytes) → length (short_id id) ≤ 8
unfolding short_id
length-short_id id = elim (Bool-cases (ltb 8 (length (remove_dashes id)))) [
  | inl e ↦ rw e (length-take 8 (remove_dashes id))
  | inr e ↦ rw e (ground (arith, e))
]

AllPlain-ends_well : (s : Bytes) → AllPlain s → ends_well s ≡ true
AllPlain-ends_well [] h = refl
AllPlain-ends_well (b ∷ []) h = ground (arith, h.0)
AllPlain-ends_well (b ∷ c ∷ s) h = AllPlain-ends_well (c ∷ s) h.1

ends_well-append : (s : Bytes) (c : ℕ) (t : Bytes) → ends_well (s ++ (c ∷ t)) ≡ ends_well (c ∷ t)
ends_well-append [] c t = refl
ends_well-append (b ∷ []) c t = refl
ends_well-append (b ∷ d ∷ s) c t = ends_well-append (d ∷ s) c t

trim_dashes-same : (s : Bytes) → starts_well s ≡ true → ends_well s ≡ true → trim_dashes s ≡ s
trim_dashes-same s h k = ap trim_right (trim_left-same s h) ∙ trim_right-same s k

-- A label that is not cut.
trim_dashes-whole :
    (base short : Bytes)
    → StartsWord base
    → AllPlain short
    → is_nothing short ≡ false
    → length base + suc (length short) ≤ 63
    → trim_dashes (cut_label (with_short base short)) ≡ base ++ (b'-' ∷ short)
trim_dashes-whole base [] w p n fits = absurd (cc)
trim_dashes-whole base (b ∷ short) w p n fits =
    let whole = base ++ (b'-' ∷ b ∷ short) in
    let kept : ltb 63 (length whole) ≡ false =
      ground (arith, length-append base (b'-' ∷ b ∷ short), fits) in
    rw kept (
      trim_dashes-same whole (StartsWord-append base (b'-' ∷ b ∷ short) w).1
        (ends_well-append base b'-' (b ∷ short) ∙ AllPlain-ends_well (b ∷ short) p))

cancel : (s t u : Bytes) → s ++ t ≡ s ++ u → t ≡ u
cancel [] t u e = e
cancel (b ∷ s) t u e = cancel s t u (ground (arith, e))

-- Connections whose name comes to 54 bytes at most have different slugs, unless their ids are the
-- same in the eight bytes that are taken of them.
pub connection_slug-short :
    (runes : List ℕ) (id other : Bytes)
    → length (named (slugify runes)) ≤ 54
    → is_nothing (short_id id) ≡ false
    → is_nothing (short_id other) ≡ false
    → connection_slug runes id ≡ connection_slug runes other
    → short_id id ≡ short_id other
unfolding connection_slug
connection_slug-short runes id other fits h k e =
    let base = named (slugify runes) in
    let w = named-StartsWord (slugify runes) (slugify-starts_well runes) in
    let first =
      trim_dashes-whole base (short_id id) w (AllPlain-short_id id) h
        (omega (arith, fits, length-short_id id)) in
    let second =
      trim_dashes-whole base (short_id other) w (AllPlain-short_id other) k
        (omega (arith, fits, length-short_id other)) in
    let tails =
      cancel base (b'-' ∷ short_id id) (b'-' ∷ short_id other) (sym first ∙ (e ∙ second)) in
    ground (arith, tails)
