-- ===== src/Sql/Split.antt =====
-- Statements that are joined by semicolons are found again.
use shellcn.Prelude.{
  ℕ, ◌≡◌, refl, ap, sym, ◌∙◌, Bool, true, false, not, ◌&&◌, ◌||◌, List, [], ◌∷◌, ◌++◌, ◌==◌, nat_eq,
  All, ◌⊎◌, inl, inr, ◌≢◌, map, arith,
}
use mathlib.Core.List.{append_assoc, append-nil}
use shellcn.Sql.{
  Runes, Text, is_nil, next_quote, next_escaped, separates, flush, split_runes, split_statements,
}

-- A scan of the text from a quote and a flag meets no semicolon outside of quotes, and ends outside
-- of quotes.
unfoldable closes : ℕ → Bool → Runes → Bool
closes quote escaped [] = quote == 0 && not escaped
closes quote escaped (r ∷ s) =
    not (separates quote r) && closes (next_quote quote escaped r) (next_escaped quote escaped r) s

-- The grammar of statements; 34, 39 and 92 are the double quote, the single quote and the backslash.
-- What stands in quotes: a rune, or a backslash and the rune that it escapes.
pub data Quoted : Type 0 where
  bare escape : ℕ → Quoted

-- A statement by its parts: runes out of quotes, and quotes with what stands in them.
pub data Part : Type 0 where
  plain : ℕ → Part
  quotes : ℕ → List Quoted → Part

abbrev pub quoted_text : List Quoted → Runes → Runes
quoted_text [] s = s
quoted_text (bare r ∷ inner) s = r ∷ quoted_text inner s
quoted_text (escape r ∷ inner) s = 92 ∷ r ∷ quoted_text inner s

abbrev pub part_text : Part → Runes → Runes
part_text (plain r) s = r ∷ s
part_text (quotes q inner) s = q ∷ quoted_text inner (q ∷ s)

abbrev pub parts_text : List Part → Runes
parts_text [] = []
parts_text (p ∷ parts) = part_text p (parts_text parts)

-- A rune that stands for itself in the quotes `q`: neither that quote nor a backslash.
abbrev pub IsBare : ℕ → Quoted → Type 0
IsBare q (bare r) = (r ≢ q) × (r ≢ 92)
IsBare q (escape r) = Unit

-- Out of quotes stands no quote and no semicolon; the quotes are single or double ones.
abbrev pub IsPart : Part → Type 0
IsPart (plain r) = (r ≢ 39) × (r ≢ 34) × (r ≢ b';')
IsPart (quotes q inner) = ((q ≡ 39) ⊎ (q ≡ 34)) × All (IsBare q) inner

beq_of_ne : (a b : ℕ) → a ≢ b → (a == b) ≡ false
beq_of_ne a b h = ground (arith, nat_eq.same_iff a b)

and_false : (b : Bool) → (b && false) ≡ false
and_false true = refl
and_false false = refl

-- What the scan asks of the rune of a quote.
quote_facts :
    (q : ℕ)
    → (q ≡ 39) ⊎ (q ≡ 34)
    → ((q == 0) ≡ false)
      × ((92 == q) ≡ false)
      × ((q == 92) ≡ false)
      × ((q == q) ≡ true)
      × ((q == 59) ≡ false)
      × ((q == 39 || q == 34) ≡ true)
quote_facts q (inl k) = rw k (refl, refl, refl, refl, refl, refl)
quote_facts q (inr k) = rw k (refl, refl, refl, refl, refl, refl)

closes-quoted_text :
    (q : ℕ) (inner : List Quoted) (s : Runes)
    → (q ≡ 39) ⊎ (q ≡ 34)
    → All (IsBare q) inner
    → closes 0 false s ≡ true
    → closes q false (quoted_text inner (q ∷ s)) ≡ true
unfolding closes
closes-quoted_text q [] s k a h = let f = quote_facts q k in rw (f.0, f.2, f.3) h
closes-quoted_text q (bare r ∷ inner) s k a h =
    let f = quote_facts q k in
    rw (f.0, beq_of_ne r q a.0.0, beq_of_ne r 92 a.0.1) (closes-quoted_text q inner s k a.1 h)
closes-quoted_text q (escape r ∷ inner) s k a h =
    let f = quote_facts q k in
    rw (f.0, f.1, f.0, and_false (r == q), and_false (r == 92))
      (closes-quoted_text q inner s k a.1 h)

closes-part_text :
    (p : Part) (s : Runes)
    → IsPart p
    → closes 0 false s ≡ true
    → closes 0 false (part_text p s) ≡ true
unfolding closes
closes-part_text (plain r) s a h = rw (beq_of_ne r 39 a.0, beq_of_ne r 34 a.1, beq_of_ne r 59 a.2) h
closes-part_text (quotes q inner) s (k, a) h =
    let below = closes-quoted_text q inner s k a h in let f = quote_facts q k in rw (f.4, f.5) below

closes-parts_text :
    (parts : List Part) → All IsPart parts → closes 0 false (parts_text parts) ≡ true
unfolding closes
closes-parts_text [] h = refl
closes-parts_text (p ∷ parts) h =
    closes-part_text p (parts_text parts) h.0 (closes-parts_text parts h.1)

is_nil-parts_text : (parts : List Part) → parts ≢ [] → is_nil (parts_text parts) ≡ false
is_nil-parts_text [] h = absurd (h refl)
is_nil-parts_text (plain r ∷ parts) h = refl
is_nil-parts_text (quotes q inner ∷ parts) h = refl

module _ (t : Text) where
  split_runes-closes :
      (s rest buffer : Runes) (quote : ℕ) (escaped : Bool)
      → closes quote escaped s ≡ true
      → split_runes t quote escaped buffer (s ++ rest) ≡ split_runes t 0 false (buffer ++ s) rest
  unfolding split_runes closes
  split_runes-closes [] rest buffer quote escaped h =
      let q : quote ≡ 0 = ground (arith, h) in
      let e : escaped ≡ false = ground (arith, h) in
      rw (q, e) (ap (λ (b : Runes). split_runes t 0 false b rest) (sym (append-nil buffer)))
  split_runes-closes (r ∷ s) rest buffer quote escaped h =
      let apart : separates quote r ≡ false = ground (arith, h) in
      let below : closes (next_quote quote escaped r) (next_escaped quote escaped r) s ≡ true =
        ground (arith, h) in
      let ih =
        split_runes-closes s rest (buffer ++ (r ∷ [])) (next_quote quote escaped r)
          (next_escaped quote escaped r) below in
      rw apart
        (ih ∙ ap (λ (b : Runes). split_runes t 0 false b rest) (append_assoc buffer (r ∷ []) s))

  -- A statement that splitting leaves as it is: its parts are parts, there is one, and trimming keeps
  -- the text.
  abbrev pub IsStatement : List Part → Type 0
  IsStatement parts =
      All IsPart parts × (parts ≢ []) × (t.trim_space (parts_text parts) ≡ parts_text parts)

  -- The texts of statements with a semicolon after each.
  abbrev pub terminated : List (List Part) → Runes
  terminated [] = []
  terminated (parts ∷ statements) = parts_text parts ++ (b';' ∷ terminated statements)

  flush-statement :
      (parts : List Part) (rest : List Runes)
      → IsStatement parts
      → flush t (parts_text parts) rest ≡ parts_text parts ∷ rest
  flush-statement parts rest h = rw h.2 (rw (is_nil-parts_text parts h.1) refl)

  -- Splitting the texts of statements with a semicolon after each gives these texts back, where each
  -- is made of runes other than quotes and semicolons, and of what stands between two single or two
  -- double quotes, in which a backslash escapes the rune after it; where none is empty, trimming
  -- keeps each, and trimming leaves the empty text.
  pub split_statements-terminated :
      (statements : List (List Part))
      → t.trim_space [] ≡ []
      → All IsStatement statements
      → split_statements t (terminated statements) ≡ map parts_text statements
  unfolding split_statements split_runes
  split_statements-terminated [] blank h = rw blank refl
  split_statements-terminated (parts ∷ statements) blank h =
      let s = parts_text parts in
      split_runes-closes s (b';' ∷ terminated statements) [] 0 false (closes-parts_text parts h.0.0)
      ∙ (flush-statement parts (split_runes t 0 false [] (terminated statements)) h.0
          ∙ ap (λ (l : List Runes). s ∷ l) (split_statements-terminated statements blank h.1))
