-- ===== src/Service/Slug.antt =====
-- internal/service/enrollment.go, `slugify`, `connectionSlug` and `shellQuote`: the names and words
-- that stand in the commands by which an agent is installed. The runes of a name, folded by
-- golang.org/x/text and lowered by strings.ToLower, are the argument of `slugify`.
pub mod Label
pub mod Unique
pub mod Quote
use shellcn.Prelude.{
  ℕ, ◌+◌, Bool, true, false, not, ◌&&◌, ◌||◌, List, [], ◌∷◌, ◌++◌, ◌==◌, nat_eq, if◌then◌else◌,
  length, leb, ltb,
}
use shellcn.Prelude.Bytes.{Bytes, take}

abbrev pub is_slug_rune : ℕ → Bool
is_slug_rune r = (leb b'a' r && leb r b'z') || (leb b'0' r && leb r b'9')

-- The loop over the runes, from the last `dash`.
unfoldable pub slug_from : Bool → List ℕ → Bytes
slug_from dash [] = []
slug_from dash (r ∷ rs) =
    let rest = slug_from (not (is_slug_rune r)) rs in
    if is_slug_rune r then r ∷ rest else if not dash then b'-' ∷ rest else rest

-- `strings.Trim(s, "-")`, from both sides.
unfoldable pub trim_left : Bytes → Bytes
trim_left [] = []
trim_left (b ∷ s) = let rest = trim_left s in if b == b'-' then rest else b ∷ s

abbrev pub keep_right : ℕ → Bytes → Bytes
keep_right b [] = if b == b'-' then [] else b ∷ []
keep_right b (c ∷ s) = b ∷ c ∷ s

unfoldable pub trim_right : Bytes → Bytes
trim_right [] = []
trim_right (b ∷ s) = keep_right b (trim_right s)

abbrev pub trim_dashes : Bytes → Bytes
trim_dashes s = trim_right (trim_left s)

unfoldable pub slugify : List ℕ → Bytes
slugify runes = trim_dashes (slug_from false runes)

-- `strings.ReplaceAll(id, "-", "")`
unfoldable pub remove_dashes : Bytes → Bytes
remove_dashes [] = []
remove_dashes (b ∷ s) = let rest = remove_dashes s in if b == b'-' then rest else b ∷ rest

-- `app.AgentSlugFallback`, "shellcn-agent".
abbrev pub agent_slug_fallback : Bytes
agent_slug_fallback =
    b's' ∷ b'h' ∷ b'e' ∷ b'l' ∷ b'l' ∷ b'c' ∷ b'n' ∷ b'-' ∷ b'a' ∷ b'g' ∷ b'e' ∷ b'n' ∷ b't' ∷ []

abbrev pub is_nothing : Bytes → Bool
is_nothing [] = true
is_nothing (b ∷ s) = false

-- `short[:8]` where it is longer.
unfoldable pub short_id : Bytes → Bytes
short_id id = let short = remove_dashes id in if ltb 8 (length short) then take 8 short else short

unfoldable pub named : Bytes → Bytes
named slug = if is_nothing slug then agent_slug_fallback else slug

abbrev pub with_short : Bytes → Bytes → Bytes
with_short slug short = if not (is_nothing short) then slug ++ (b'-' ∷ short) else slug

abbrev pub cut_label : Bytes → Bytes
cut_label slug = if ltb 63 (length slug) then take 63 slug else slug

unfoldable pub connection_slug : List ℕ → Bytes → Bytes
connection_slug runes id =
    trim_dashes (cut_label (with_short (named (slugify runes)) (short_id id)))

abbrev pub quote_byte : ℕ
quote_byte = 39

abbrev pub backslash : ℕ
backslash = 92

-- `strings.ReplaceAll(value, "'", "'\\''")`
unfoldable pub escape_quotes : Bytes → Bytes
escape_quotes [] = []
escape_quotes (b ∷ s) =
    let rest = escape_quotes s in
    if b == quote_byte then quote_byte ∷ backslash ∷ quote_byte ∷ quote_byte ∷ rest else b ∷ rest

unfoldable pub shell_quote : Bytes → Bytes
shell_quote value =
    if is_nothing value
    then quote_byte ∷ quote_byte ∷ []
    else quote_byte ∷ (escape_quotes value ++ (quote_byte ∷ []))
