-- ===== src/Service/Slug/Quote.antt =====
-- A shell reads a quoted word as the value that was quoted.
use shellcn.Prelude.{
  ℕ, ◌≡◌, refl, sym, ap, inl, inr, [], ◌∷◌, ◌++◌, Option, none, some, ◌==◌, nat_eq, if◌then◌else◌,
  Bool-cases,
}
use shellcn.Prelude.Bytes.{Bytes}
use shellcn.Service.Slug.{quote_byte, backslash, escape_quotes, shell_quote}

-- Where a POSIX shell stands in a word: outside of quotes, just after a backslash, or inside of
-- single quotes, where every byte but a quote stands for itself.
pub data Place : Type 0 where
  outside after_backslash inside : Place

-- What the shell has read of a word so far, and the place that it has come to, from a text in which
-- nothing stands outside of quotes but quotes and backslashes; `none` where something does.
abbrev pub shell_step : Place → ℕ → Option (Place × Bytes)
shell_step outside b =
    if b == quote_byte
    then some (inside, [])
    else if b == backslash
    then some (after_backslash, [])
    else none
shell_step after_backslash b = some (outside, b ∷ [])
shell_step inside b = if b == quote_byte then some (outside, []) else some (inside, b ∷ [])

abbrev pub prepend : Bytes → Option (Place × Bytes) → Option (Place × Bytes)
prepend front none = none
prepend front (some (p, s)) = some (p, front ++ s)

abbrev pub after_step :
    Option (Place × Bytes) → (Place → Option (Place × Bytes)) → Option (Place × Bytes)
after_step none go = none
after_step (some (p, front)) go = prepend front (go p)

unfoldable pub shell_read : Place → Bytes → Option (Place × Bytes)
shell_read p [] = some (p, [])
shell_read p (b ∷ s) = after_step (shell_step p b) (λ q. shell_read q s)

read-escape_quotes :
    (value : Bytes)
    → shell_read inside (escape_quotes value ++ (quote_byte ∷ [])) ≡ some (outside, value)
unfolding shell_read escape_quotes
read-escape_quotes [] = refl
read-escape_quotes (b ∷ value) = elim (Bool-cases (b == quote_byte)) [
  | inl e ↦
      rw (e, read-escape_quotes value)
        (ap (λ (x : ℕ). some (outside, x ∷ value)) (sym ((nat_eq.same_iff b quote_byte).0 e)))
  | inr e ↦ rw e (rw e (rw (read-escape_quotes value) refl))
]

-- The shell reads a quoted value as one word, which is that value, and is outside of quotes after it.
pub read-shell_quote :
    (value : Bytes) → shell_read outside (shell_quote value) ≡ some (outside, value)
unfolding shell_read shell_quote
read-shell_quote [] = refl
read-shell_quote (b ∷ value) = rw (read-escape_quotes (b ∷ value)) refl
