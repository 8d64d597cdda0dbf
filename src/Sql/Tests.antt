-- ===== src/Sql/Tests.antt =====
-- Runs of the functions on SQL, and the theorems at concrete texts.
use shellcn.Prelude.{
  ◌≡◌, ◌≢◌, refl, String, true, false, [], ◌∷◌, ◌++◌, some, none, List, ◌⊎◌, ℕ, inl, inr, ne_of_beq,
  map, Option, Bool, ◌==◌, nat_eq, string_eq, if◌then◌else◌, arith, length, ◌≤◌,
}
use shellcn.Sql.{
  Runes, Text, quote_ident, qualified, double_quotes, split_statements, split_runes, first_keyword,
  first_keyword_from, execute_query_request, execute_from, executed, writes_blocked,
}
use shellcn.Sql.Idents.{read_qualified, read-qualified}
use shellcn.Sql.Split.{
  Part, plain, quotes, bare, escape, parts_text, terminated, split_statements-terminated,
}
use shellcn.Sql.Redact.{
  cell_at, redact_rows, redact_column, hidden, IsRedacted, get_elem?, cell_at-redact_rows,
}
use shellcn.Sql.Guards.{execute_query_request_lem, with_executed}

word : Runes → String
word [] = ""
word (r ∷ s) = if r == b's' then "SELECT" else if r == b'w' then "WITH" else "DELETE"

text : Text
text = record { trim_space = λ s. s; fields = λ s. s ∷ []; to_upper = word }

-- `a"b` and `c`.
qualified_text :
    qualified (b'a' ∷ 34 ∷ b'b' ∷ []) (b'c' ∷ [])
    ≡ 34 ∷ b'a' ∷ 34 ∷ 34 ∷ b'b' ∷ 34 ∷ b'.' ∷ 34 ∷ b'c' ∷ 34 ∷ []
unfolding qualified quote_ident double_quotes
qualified_text = refl

read-qualified_example :
    read_qualified (qualified (b'a' ∷ 34 ∷ b'b' ∷ []) (b'c' ∷ []) ++ [])
    ≡ some (b'a' ∷ 34 ∷ b'b' ∷ [], (b'c' ∷ [], []))
read-qualified_example = read-qualified (b'a' ∷ 34 ∷ b'b' ∷ []) (b'c' ∷ []) [] tt

-- `s';'`, a semicolon in quotes, and `w`.
abbrev quoted : Runes
quoted = b's' ∷ 39 ∷ b';' ∷ 39 ∷ []

abbrev with_text : Runes
with_text = b'w' ∷ []

split_two : split_statements text (quoted ++ (b';' ∷ with_text)) ≡ quoted ∷ with_text ∷ []
unfolding split_statements split_runes text
split_two = refl

not_rune : (a b : ℕ) → (a == b) ≡ false → a ≢ b
not_rune a b h = ne_of_beq a b h

not_nil : (p : Part) (parts : List Part) → p ∷ parts ≢ []
not_nil p parts e = cc

-- `s';\''` and `w";'"`.
abbrev with_quotes : List (List Part)
with_quotes =
    (plain b's' ∷ quotes 39 (bare b';' ∷ escape 39 ∷ []) ∷ [])
    ∷ (plain b'w' ∷ quotes 34 (bare b';' ∷ bare 39 ∷ []) ∷ [])
    ∷ []

split_statements-terminated_example :
    split_statements text (terminated text with_quotes) ≡ map parts_text with_quotes
unfolding text
split_statements-terminated_example = split_statements-terminated text with_quotes refl (
  (
    (
      (not_rune b's' 39 refl, not_rune b's' 34 refl, not_rune b's' b';' refl),
      ((inl refl, ((not_rune b';' 39 refl, not_rune b';' 92 refl), (tt, tt))), tt),
    ),
    not_nil (plain b's') (quotes 39 (bare b';' ∷ escape 39 ∷ []) ∷ []),
    refl,
  ),
  (
    (
      (
        (not_rune b'w' 39 refl, not_rune b'w' 34 refl, not_rune b'w' b';' refl),
        (
          (
            inr refl,
            (
              (not_rune b';' 34 refl, not_rune b';' 92 refl),
              ((not_rune 39 34 refl, not_rune 39 92 refl), tt),
            ),
          ),
          tt,
        ),
      ),
      not_nil (plain b'w') (quotes 34 (bare b';' ∷ bare 39 ∷ []) ∷ []),
      refl,
    ),
    tt,
  ),
)

text_shortens : (s : Runes) → length (text.trim_space s) ≤ length s
unfolding text
text_shortens s = omega arith

select_runs : (execute_query_request text true true false (λ s. true) quoted).0 ≢ []
unfolding text word execute_query_request execute_from split_statements split_runes first_keyword
    first_keyword_from
select_runs e = cc

delete_blocked :
    execute_query_request text true true false (λ s. true) (quoted ++ (b';' ∷ b'd' ∷ []))
    ≡ ([], writes_blocked)
unfolding text word execute_query_request execute_from split_statements split_runes first_keyword
    first_keyword_from
delete_blocked = refl

execute_query_request_lem_example : split_statements text quoted ≢ []
execute_query_request_lem_example =
    (execute_query_request_lem text true true false (λ s. true) quoted select_runs).0

with_split : split_statements text with_text ≡ with_text ∷ []
unfolding text split_statements split_runes
with_split = refl

with_keyword : first_keyword text with_text ≡ some "WITH"
unfolding text word first_keyword first_keyword_from
with_keyword = refl

with_executed_example :
    execute_query_request text true true false (λ s. true) with_text ≡ (with_text ∷ [], executed)
with_executed_example = with_executed text (λ s. true) with_text with_split with_keyword

-- Every pattern but "(" compiles, and matches itself.
compile : String → Option (String → Bool)
compile pattern = if pattern == "(" then none else some (λ column. column == pattern)

abbrev columns : List String
columns = "user" ∷ "password" ∷ []

abbrev patterns : List String
patterns = "(" ∷ "password" ∷ []

abbrev accounts : List (List (Option String))
accounts = (some "alice" ∷ some "secret" ∷ []) ∷ (some "bob" ∷ none ∷ []) ∷ []

password_hidden :
    redact_rows "***" compile columns accounts patterns
    ≡ (some "alice" ∷ some "***" ∷ []) ∷ (some "bob" ∷ none ∷ []) ∷ []
unfolding redact_rows redact_column compile
password_hidden = refl

cell_at-redact_rows_example :
    let after = cell_at (redact_rows "***" compile columns accounts patterns) 0 1 in
    let redacted = IsRedacted compile patterns (get_elem? columns 1) in
    (redacted × (after ≡ hidden "***" (cell_at accounts 0 1)))
    ⊎ ((¬ redacted) × (after ≡ cell_at accounts 0 1))
cell_at-redact_rows_example = cell_at-redact_rows "***" compile columns patterns accounts 0 1
