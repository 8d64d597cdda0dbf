-- ===== src/Sql.antt =====
-- plugins/shared/sqldb/sqldb.go, the texts of SQL, and the guards of `executeQueryRequest` in
-- plugins/postgresql/routes.go and plugins/mysql/routes.go. A text is a list of runes. TrimSpace,
-- Fields and ToUpper of package strings are the fields of a `Text`.
pub mod Split
pub mod Idents
pub mod Guards
pub mod Redact
pub mod Tests
use shellcn.Prelude.{
  ℕ, zero, suc, length, Bool, true, false, not, ◌&&◌, ◌||◌, List, [], ◌∷◌, ◌++◌, Option, none, some,
  ◌==◌, string_eq, nat_eq, if◌then◌else◌, String,
}
use shellcn.Prelude.Distinct.{member}

abbrev pub Runes : Type 0
Runes = List ℕ

-- `keyword` is a word in upper case, as a text.
pub record Text : Type 0 where
  pub trim_space : Runes → Runes
  pub fields : Runes → List Runes
  pub to_upper : Runes → String

abbrev pub is_nil : Runes → Bool
is_nil [] = true
is_nil (r ∷ s) = false

abbrev pub double_quote : ℕ
double_quote = 34

abbrev pub single_quote : ℕ
single_quote = 39

abbrev pub escape_rune : ℕ
escape_rune = 92

-- `strings.ReplaceAll(s, "\"", "\"\"")`
unfoldable pub double_quotes : Runes → Runes
double_quotes [] = []
double_quotes (r ∷ s) =
    let rest = double_quotes s in if r == double_quote then r ∷ r ∷ rest else r ∷ rest

unfoldable pub quote_ident : Runes → Runes
quote_ident s = double_quote ∷ (double_quotes s ++ (double_quote ∷ []))

unfoldable pub qualified : Runes → Runes → Runes
qualified schema name = quote_ident schema ++ (b'.' ∷ quote_ident name)

-- The quote in which the scan stands, 0 for none, after a rune.
abbrev pub next_quote : ℕ → Bool → ℕ → ℕ
next_quote quote escaped r =
    if quote == 0
    then (if r == single_quote || r == double_quote then r else 0)
    else if r == quote && not escaped
    then 0
    else quote

abbrev pub next_escaped : ℕ → Bool → ℕ → Bool
next_escaped quote escaped r = if quote == 0 then escaped else (r == escape_rune && not escaped)

abbrev pub separates : ℕ → ℕ → Bool
separates quote r = quote == 0 && r == b';'

-- What follows the first line break, and whether there is one.
abbrev pub line_after : Runes → Runes
line_after [] = []
line_after (r ∷ s) = if r == 10 then s else line_after s

abbrev pub has_line : Runes → Bool
has_line [] = false
has_line (r ∷ s) = r == 10 || has_line s

module _ (t : Text) where
  abbrev pub flush : Runes → List Runes → List Runes
  flush buffer rest = if is_nil (t.trim_space buffer) then rest else t.trim_space buffer ∷ rest

  -- The loop of `SplitStatements` from its quote, its flag and what is written so far.
  unfoldable pub split_runes : ℕ → Bool → Runes → Runes → List Runes
  split_runes quote escaped buffer [] = flush buffer []
  split_runes quote escaped buffer (r ∷ s) =
      let rest =
        split_runes (next_quote quote escaped r) (next_escaped quote escaped r)
          (if separates quote r then [] else buffer ++ (r ∷ [])) s in
      if separates quote r then flush buffer rest else rest

  unfoldable pub split_statements : Runes → List Runes
  split_statements sql_text = split_runes 0 false [] sql_text

  abbrev pub is_comment : Runes → Bool
  is_comment [] = false
  is_comment (a ∷ []) = false
  is_comment (a ∷ b ∷ s) = a == b'-' && b == b'-'

  abbrev pub first_upper : List Runes → String
  first_upper [] = ""
  first_upper (word ∷ words) = t.to_upper word

  -- The loop of `FirstKeyword` over leading comments, on fuel.
  unfoldable pub first_keyword_from : ℕ → Runes → Option String
  first_keyword_from zero s = none
  first_keyword_from (suc fuel) s =
      let rest = first_keyword_from fuel (t.trim_space (line_after s)) in
      if not (is_comment s)
      then some (first_upper (t.fields s))
      else if has_line s
      then rest
      else some ""

  -- `none` is out of fuel.
  unfoldable pub first_keyword : Runes → Option String
  first_keyword statement =
      first_keyword_from (suc (length (t.trim_space statement))) (t.trim_space statement)

abbrev pub read_only_keywords : List String
read_only_keywords = "SELECT" ∷ "SHOW" ∷ "EXPLAIN" ∷ "WITH" ∷ "VALUES" ∷ "DESCRIBE" ∷ "DESC" ∷ []

abbrev pub destructive_keywords : List String
destructive_keywords =
    "DELETE" ∷ "DROP" ∷ "TRUNCATE" ∷ "ALTER" ∷ "UPDATE" ∷ "INSERT" ∷ "CREATE" ∷ "REINDEX" ∷ "VACUUM"
    ∷ "GRANT" ∷ "REVOKE" ∷ "OPTIMIZE" ∷ "ANALYZE" ∷ "LOCK" ∷ "UNLOCK" ∷ "CALL" ∷ []

pub data QueryOutcome : Type 0 where
  query_empty writes_blocked needs_confirmation executed : QueryOutcome

abbrev pub no_statements : List Runes → Bool
no_statements [] = true
no_statements (s ∷ statements) = false

abbrev pub keyword_in : Option String → List String → Bool
keyword_in none keywords = false
keyword_in (some keyword) keywords = member keyword keywords

module _ (t : Text) where
  abbrev pub is_read_only_statement : Runes → Bool
  is_read_only_statement s = keyword_in (first_keyword t s) read_only_keywords

  abbrev pub is_destructive_statement : Runes → Bool
  is_destructive_statement s = keyword_in (first_keyword t s) destructive_keywords

  abbrev pub all_read_only : List Runes → Bool
  all_read_only [] = true
  all_read_only (s ∷ statements) = is_read_only_statement s && all_read_only statements

  abbrev pub some_destructive : List Runes → Bool
  some_destructive [] = false
  some_destructive (s ∷ statements) = is_destructive_statement s || some_destructive statements

  -- The loop that executes statements until one fails: those that the database was given.
  unfoldable pub execute_from : (Runes → Bool) → List Runes → List Runes
  execute_from succeeds [] = []
  execute_from succeeds (s ∷ statements) =
      let rest = execute_from succeeds statements in s ∷ (if succeeds s then rest else [])

  -- The guards of `executeQueryRequest`, with what the database is given.
  unfoldable pub execute_query_request :
      Bool → Bool → Bool → (Runes → Bool) → Runes → List Runes × QueryOutcome
  execute_query_request read_only require_confirm confirm succeeds query =
      let statements = split_statements t query in
      if no_statements statements
      then ([], query_empty)
      else if read_only && not (all_read_only statements)
      then ([], writes_blocked)
      else if require_confirm && (not confirm && some_destructive statements)
      then ([], needs_confirmation)
      else (execute_from succeeds statements, executed)
