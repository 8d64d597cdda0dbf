-- ===== src/Sql/Idents.antt =====
-- A database reads a quoted identifier as the name that was quoted.
use shellcn.Prelude.{
  ℕ, ◌≡◌, refl, ap, sym, ◌∙◌, inl, inr, Bool, true, false, ◌&&◌, [], ◌∷◌, ◌++◌, Option, none, some,
  ◌==◌, nat_eq, if◌then◌else◌, Bool-cases,
}
use mathlib.Core.Path.{subst}
use shellcn.Sql.{Runes, double_quote, double_quotes, quote_ident, qualified}
use mathlib.Core.List.{append_assoc}

-- How SQL reads an identifier from after its first double quote: two double quotes stand for one, a
-- single one ends it, and what follows is left; `none` where it does not end.
abbrev pub read_rune : ℕ → Option (Runes × Runes) → Option (Runes × Runes)
read_rune r none = none
read_rune r (some (name, rest)) = some (r ∷ name, rest)

unfoldable pub read_quoted : Bool → Runes → Option (Runes × Runes)
read_quoted true [] = some ([], [])
read_quoted false [] = none
read_quoted true (r ∷ s) =
    let inside = read_rune r (read_quoted false s) in
    if r == double_quote then inside else some ([], r ∷ s)
read_quoted false (r ∷ s) =
    let inside = read_rune r (read_quoted false s) in
    let pending = read_quoted true s in if r == double_quote then pending else inside

-- What follows an identifier is not a double quote.
abbrev pub NoQuote : Runes → Type 0
NoQuote [] = Unit
NoQuote (r ∷ s) = (r == double_quote) ≡ false

read_quoted-end : (rest : Runes) → NoQuote rest → read_quoted true rest ≡ some ([], rest)
unfolding read_quoted
read_quoted-end [] h = refl
read_quoted-end (r ∷ s) h = rw h refl

read_quoted-double_quotes :
    (name rest : Runes)
    → NoQuote rest
    → read_quoted false (double_quotes name ++ (double_quote ∷ rest)) ≡ some (name, rest)
unfolding read_quoted double_quotes
read_quoted-double_quotes [] rest h = read_quoted-end rest h
read_quoted-double_quotes (r ∷ name) rest h =
    let ih = read_quoted-double_quotes name rest h in
    elim (Bool-cases (r == double_quote)) [
      | inl e ↦
          subst
            (λ (x : ℕ).
              read_quoted false (double_quotes (x ∷ name) ++ (double_quote ∷ rest))
              ≡ some (x ∷ name, rest))
            (sym ((nat_eq.same_iff r double_quote).0 e)) (rw ih refl)
      | inr e ↦ rw e (rw (e, ih) refl)
    ]

abbrev pub second_name : Runes → Option (Runes × Runes) → Option (Runes × (Runes × Runes))
second_name schema none = none
second_name schema (some (name, rest)) = some (schema, (name, rest))

-- After the first name: a dot and the double quote of the second.
abbrev pub after_schema : Runes → Runes → Option (Runes × (Runes × Runes))
after_schema schema [] = none
after_schema schema (d ∷ []) = none
after_schema schema (d ∷ q ∷ rest) =
    if d == b'.' && q == double_quote then second_name schema (read_quoted false rest) else none

abbrev pub read_after : Option (Runes × Runes) → Option (Runes × (Runes × Runes))
read_after none = none
read_after (some (schema, rest)) = after_schema schema rest

-- The two names of a qualified identifier, and what follows.
abbrev pub read_qualified : Runes → Option (Runes × (Runes × Runes))
read_qualified [] = none
read_qualified (r ∷ s) = if r == double_quote then read_after (read_quoted false s) else none

quoted_text :
    (name rest : Runes)
    → quote_ident name ++ rest ≡ double_quote ∷ (double_quotes name ++ (double_quote ∷ rest))
unfolding quote_ident
quoted_text name rest =
    ap (λ (s : Runes). double_quote ∷ s)
      (append_assoc (double_quotes name) (double_quote ∷ []) rest)

qualified_text :
    (schema name rest : Runes)
    → qualified schema name ++ rest
      ≡ double_quote
        ∷ (double_quotes schema
            ++ (double_quote
                ∷ (b'.' ∷ (double_quote ∷ (double_quotes name ++ (double_quote ∷ rest))))))
unfolding qualified
qualified_text schema name rest =
    append_assoc (quote_ident schema) (b'.' ∷ quote_ident name) rest
    ∙ (quoted_text schema (b'.' ∷ (quote_ident name ++ rest))
        ∙ ap (λ (s : Runes). double_quote ∷ (double_quotes schema ++ (double_quote ∷ (b'.' ∷ s))))
            (quoted_text name rest))

-- What Qualified gives is read as the two names that were given, whatever quotes stand in them, where
-- no double quote follows.
pub read-qualified :
    (schema name rest : Runes)
    → NoQuote rest
    → read_qualified (qualified schema name ++ rest) ≡ some (schema, (name, rest))
read-qualified schema name rest h =
    let tail = double_quotes name ++ (double_quote ∷ rest) in
    rw (qualified_text schema name rest) (
      rw (read_quoted-double_quotes schema (b'.' ∷ (double_quote ∷ tail)) refl)
        (rw (read_quoted-double_quotes name rest h) refl))
