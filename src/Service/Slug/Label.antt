-- ===== src/Service/Slug/Label.antt =====
-- The label of a connection: it is a DNS label, and when it tells connections apart.
use shellcn.Prelude.{
  ℕ, zero, suc, ◌≤◌, ◌≡◌, refl, ap, inl, inr, Bool, true, false, not, ◌||◌, List, [], ◌∷◌, ◌++◌,
  ◌==◌, nat_eq, length, ltb, All, Bool-cases, arith, if_elim, leb, ◌&&◌,
}
use shellcn.Prelude.Bytes.{Bytes, take, length-take}
use shellcn.Service.Slug.{
  is_slug_rune, slug_from, trim_left, keep_right, trim_right, trim_dashes, slugify, remove_dashes,
  is_nothing, short_id, named, with_short, cut_label, connection_slug,
}

-- A letter from a to z, a digit or a dash, as ASCII has them.
abbrev pub IsLabelByte : ℕ → Type 0
IsLabelByte b = ((leb 97 b && leb b 122) || (leb 48 b && leb b 57) || b == 45) ≡ true

abbrev pub AllLabel : Bytes → Type 0
AllLabel s = All IsLabelByte s

-- The text starts with no dash; it may be empty.
abbrev pub starts_well : Bytes → Bool
starts_well [] = true
starts_well (b ∷ s) = not (b == b'-')

abbrev pub ends_well : Bytes → Bool
ends_well [] = true
ends_well (b ∷ []) = not (b == b'-')
ends_well (b ∷ c ∷ s) = ends_well (c ∷ s)

AllLabel-append : (s t : Bytes) → AllLabel s → AllLabel t → AllLabel (s ++ t)
AllLabel-append [] t h k = k
AllLabel-append (b ∷ s) t h k = (h.0, AllLabel-append s t h.1 k)

AllLabel-take : (n : ℕ) (s : Bytes) → AllLabel s → AllLabel (take n s)
AllLabel-take zero s h = tt
AllLabel-take (suc n) [] h = tt
AllLabel-take (suc n) (b ∷ s) h = (h.0, AllLabel-take n s h.1)

AllLabel-slug_from : (dash : Bool) (rs : List ℕ) → AllLabel (slug_from dash rs)
unfolding slug_from
AllLabel-slug_from dash [] = tt
AllLabel-slug_from dash (r ∷ rs) = ground (arith, AllLabel-slug_from (not (is_slug_rune r)) rs)

AllLabel-trim_left : (s : Bytes) → AllLabel s → AllLabel (trim_left s)
unfolding trim_left
AllLabel-trim_left [] h = tt
AllLabel-trim_left (b ∷ s) h = ground (arith, h.0, h.1, AllLabel-trim_left s h.1)

AllLabel-keep_right : (b : ℕ) (s : Bytes) → IsLabelByte b → AllLabel s → AllLabel (keep_right b s)
AllLabel-keep_right b [] h k = ground (arith, h)
AllLabel-keep_right b (c ∷ s) h k = (h, k)

AllLabel-trim_right : (s : Bytes) → AllLabel s → AllLabel (trim_right s)
unfolding trim_right
AllLabel-trim_right [] h = tt
AllLabel-trim_right (b ∷ s) h = AllLabel-keep_right b (trim_right s) h.0 (AllLabel-trim_right s h.1)

AllLabel-remove_dashes : (s : Bytes) → AllLabel s → AllLabel (remove_dashes s)
unfolding remove_dashes
AllLabel-remove_dashes [] h = tt
AllLabel-remove_dashes (b ∷ s) h = ground (arith, h.0, h.1, AllLabel-remove_dashes s h.1)

length-keep_right : (b : ℕ) (s : Bytes) → length (keep_right b s) ≤ suc (length s)
length-keep_right b [] = ground arith
length-keep_right b (c ∷ s) = omega arith

length-trim_right : (s : Bytes) → length (trim_right s) ≤ length s
unfolding trim_right
length-trim_right [] = omega arith
length-trim_right (b ∷ s) = omega (arith, length-keep_right b (trim_right s), length-trim_right s)

length-trim_left : (s : Bytes) → length (trim_left s) ≤ length s
unfolding trim_left
length-trim_left [] = omega arith
length-trim_left (b ∷ s) = ground (arith, length-trim_left s)

trim_left-starts_well : (s : Bytes) → starts_well (trim_left s) ≡ true
unfolding trim_left
trim_left-starts_well [] = refl
trim_left-starts_well (b ∷ s) = ground (arith, trim_left-starts_well s)

keep_right-starts_well :
    (b : ℕ) (s : Bytes) → starts_well (b ∷ s) ≡ true → starts_well (keep_right b s) ≡ true
keep_right-starts_well b [] h = ground (arith, h)
keep_right-starts_well b (c ∷ s) h = h

trim_right-starts_well : (s : Bytes) → starts_well s ≡ true → starts_well (trim_right s) ≡ true
unfolding trim_right
trim_right-starts_well [] h = refl
trim_right-starts_well (b ∷ s) h = keep_right-starts_well b (trim_right s) h

keep_right-ends_well : (b : ℕ) (s : Bytes) → ends_well s ≡ true → ends_well (keep_right b s) ≡ true
keep_right-ends_well b [] h = ground arith
keep_right-ends_well b (c ∷ s) h = h

trim_right-ends_well : (s : Bytes) → ends_well (trim_right s) ≡ true
unfolding trim_right
trim_right-ends_well [] = refl
trim_right-ends_well (b ∷ s) = keep_right-ends_well b (trim_right s) (trim_right-ends_well s)

-- A text that starts well is left by `trim_left`, and stays something.
pub trim_left-same : (s : Bytes) → starts_well s ≡ true → trim_left s ≡ s
unfolding trim_left
trim_left-same [] h = refl
trim_left-same (b ∷ s) h = ground (arith, h)

pub trim_right-same : (s : Bytes) → ends_well s ≡ true → trim_right s ≡ s
unfolding trim_right
trim_right-same [] h = refl
trim_right-same (b ∷ []) h = ground (arith, h)
trim_right-same (b ∷ c ∷ s) h = ap (keep_right b) (trim_right-same (c ∷ s) h)

-- A text that is something and starts with no dash.
abbrev pub StartsWord : Bytes → Type 0
StartsWord s = (is_nothing s ≡ false) × (starts_well s ≡ true)

pub StartsWord-append : (s t : Bytes) → StartsWord s → StartsWord (s ++ t)
StartsWord-append [] t h = absurd (cc)
StartsWord-append (b ∷ s) t h = h

StartsWord-take : (n : ℕ) (s : Bytes) → StartsWord s → StartsWord (take (suc n) s)
StartsWord-take n [] h = h
StartsWord-take n (b ∷ s) h = h

StartsWord-keep_right : (b : ℕ) (s : Bytes) → StartsWord (b ∷ s) → StartsWord (keep_right b s)
StartsWord-keep_right b [] h = ground (arith, h.1)
StartsWord-keep_right b (c ∷ s) h = h

StartsWord-trim_dashes : (s : Bytes) → StartsWord s → StartsWord (trim_dashes s)
unfolding trim_right
StartsWord-trim_dashes [] h = absurd (cc)
StartsWord-trim_dashes (b ∷ s) h =
    rw (trim_left-same (b ∷ s) h.1) (StartsWord-keep_right b (trim_right s) h)

length-StartsWord : (s : Bytes) → StartsWord s → 1 ≤ length s
length-StartsWord [] h = absurd (cc)
length-StartsWord (b ∷ s) h = omega arith

pub named-StartsWord : (s : Bytes) → starts_well s ≡ true → StartsWord (named s)
unfolding named
named-StartsWord [] h = (refl, refl)
named-StartsWord (b ∷ s) h = (refl, h)

pub slugify-starts_well : (runes : List ℕ) → starts_well (slugify runes) ≡ true
unfolding slugify
slugify-starts_well runes =
    trim_right-starts_well (trim_left (slug_from false runes))
      (trim_left-starts_well (slug_from false runes))

AllLabel-slugify : (runes : List ℕ) → AllLabel (slugify runes)
unfolding slugify
AllLabel-slugify runes =
    AllLabel-trim_right (trim_left (slug_from false runes))
      (AllLabel-trim_left (slug_from false runes) (AllLabel-slug_from false runes))

AllLabel-named : (s : Bytes) → AllLabel s → AllLabel (named s)
unfolding named
AllLabel-named [] h = (
  refl,
  (
    refl,
    (refl, (refl, (refl, (refl, (refl, (refl, (refl, (refl, (refl, (refl, (refl, tt))))))))))),
  ),
)
AllLabel-named (b ∷ s) h = h

AllLabel-short_id : (id : Bytes) → AllLabel id → AllLabel (short_id id)
unfolding short_id
AllLabel-short_id id h =
    let d = AllLabel-remove_dashes id h in
    if_elim AllLabel (ltb 8 (length (remove_dashes id))) (take 8 (remove_dashes id))
      (remove_dashes id) (λ t. AllLabel-take 8 (remove_dashes id) d) (λ f. d)

AllLabel-with_short :
    (s short : Bytes) → AllLabel s → AllLabel short → AllLabel (with_short s short)
AllLabel-with_short s [] h k = h
AllLabel-with_short s (b ∷ short) h k = AllLabel-append s (b'-' ∷ b ∷ short) h (refl, k)

StartsWord-with_short : (s short : Bytes) → StartsWord s → StartsWord (with_short s short)
StartsWord-with_short s [] h = h
StartsWord-with_short s (b ∷ short) h = StartsWord-append s (b'-' ∷ b ∷ short) h

-- A DNS label: letters from a to z, digits and dashes, none of them first or last, one byte at least
-- and 63 bytes at most.
pub record IsDnsLabel (s : Bytes) : Type 0 where
  pub letters : AllLabel s
  pub short : length s ≤ 63
  pub something : 1 ≤ length s
  pub starts : starts_well s ≡ true
  pub ends : ends_well s ≡ true

IsDnsLabel-cut : (s : Bytes) → AllLabel s → StartsWord s → IsDnsLabel (trim_dashes (cut_label s))
IsDnsLabel-cut s h w = record {
  letters = AllLabel-trim_right (trim_left (cut_label s)) (
      AllLabel-trim_left (cut_label s)
        (if_elim AllLabel (ltb 63 (length s)) (take 63 s) s (λ t. AllLabel-take 63 s h) (λ f. h)));
  short = omega (
    arith,
    length-trim_right (trim_left (cut_label s)),
    length-trim_left (cut_label s),
    cut_short,
  );
  something = length-StartsWord (trim_dashes (cut_label s)) starting;
  starts = starting.1;
  ends = trim_right-ends_well (trim_left (cut_label s));
}
  where
    starting : StartsWord (trim_dashes (cut_label s))
    starting = StartsWord-trim_dashes (cut_label s) (
        if_elim StartsWord (ltb 63 (length s)) (take 63 s) s (λ t. StartsWord-take 62 s w) (λ f. w))

    cut_short : length (cut_label s) ≤ 63
    cut_short = elim (Bool-cases (ltb 63 (length s))) [
      | inl e ↦ rw e (length-take 63 s)
      | inr e ↦ rw e (ground (arith, e))
    ]

-- For an id of letters from a to z, digits and dashes, the slug of a connection has letters from a to
-- z, digits and dashes only, starts and ends with no dash, and has 63 bytes at most and one at least.
pub connection_slug-IsDnsLabel :
    (runes : List ℕ) (id : Bytes) → AllLabel id → IsDnsLabel (connection_slug runes id)
unfolding connection_slug
connection_slug-IsDnsLabel runes id h =
    let base = named (slugify runes) in
    IsDnsLabel-cut (with_short base (short_id id))
      (AllLabel-with_short base (short_id id)
        (AllLabel-named (slugify runes) (AllLabel-slugify runes)) (AllLabel-short_id id h))
      (StartsWord-with_short base (short_id id)
        (named-StartsWord (slugify runes) (slugify-starts_well runes)))
