-- ===== src/Ai/Memory.antt =====
-- internal/ai/memory/memory.go: the history that a turn gets, recent messages as they are and older
-- ones in a summary. A text is a list of bytes. `strings.Fields` with `strings.Join`, the runes of a
-- text, json.Marshal and fmt.Sprint are arguments.
pub mod Decimal
pub mod Window
pub mod Summary
pub mod Conversations
use shellcn.Prelude.{
  ℕ, zero, suc, ◌+◌, ◌-◌, ◌*◌, ◌/◌, ◌%◌, String, Bool, true, false, not, List, [], ◌∷◌, ◌++◌, map,
  Option, none, some, ◌==◌, string_eq, nat_eq, if◌then◌else◌, length, ltb, leb, arith,
}
use shellcn.Prelude.Int.{ℤ, pos}
use shellcn.Prelude.Bytes.{Bytes, take, drop, join}
use shellcn.Ai.Budget.{estimate}

abbrev pub min_kept_turns : ℕ
min_kept_turns = 4

abbrev pub summary_char_budget : ℕ
summary_char_budget = 12000

abbrev pub compacted_user_char_limit : ℕ
compacted_user_char_limit = 400

abbrev pub compacted_assist_char_limit : ℕ
compacted_assist_char_limit = 500

abbrev pub tool_result_char_limit : ℕ
tool_result_char_limit = 600

abbrev pub tool_result_count_limit : ℕ
tool_result_count_limit = 6

-- An `any`: nil, a string, or another value by what json.Marshal and fmt.Sprint give for it.
pub data Output : Type 0 where
  no_output : Output
  text_output : Bytes → Output
  other_output : Option Bytes → Bytes → Output

-- internal/models/ai.go, AIToolCallRecord, the fields that are read here, and AIMessage.
pub record ToolCall : Type 0 where
  pub name : Bytes
  pub output : Output
  pub err : Bytes

pub record Message : Type 0 where
  pub id : String
  pub conversation_id : String
  pub seq : ℤ
  pub role : String
  pub content : Bytes
  pub tool_calls : List ToolCall
  pub reasoning : Bytes
  pub truncated : Bool
  pub created_at : ℕ

pub record Formatted : Type 0 where
  pub role : String
  pub content : Bytes

abbrev pub is_no_text : Bytes → Bool
is_no_text [] = true
is_no_text (b ∷ s) = false

-- "\n", and "…" in UTF-8.
abbrev pub newline : Bytes
newline = 10 ∷ []

abbrev pub ellipsis : Bytes
ellipsis = 226 ∷ 128 ∷ 166 ∷ []

unfoldable pub truncate : Bytes → ℕ → Bytes
truncate s limit = if leb (length s) limit then s else take limit s ++ ellipsis

abbrev pub stringify : Output → Bytes
stringify no_output = []
stringify (text_output s) = s
stringify (other_output (some b) printed) = b
stringify (other_output none printed) = printed

-- " failed: ", ": ", "[Tool] ", "[Tool:", "] error: ", "] ", "]"
abbrev pub failed_text : Bytes
failed_text = b' ' ∷ b'f' ∷ b'a' ∷ b'i' ∷ b'l' ∷ b'e' ∷ b'd' ∷ b':' ∷ b' ' ∷ []

abbrev pub tool_text : Bytes
tool_text = b'[' ∷ b'T' ∷ b'o' ∷ b'o' ∷ b'l' ∷ []

abbrev pub tool_error_text : Bytes
tool_error_text = b']' ∷ b' ' ∷ b'e' ∷ b'r' ∷ b'r' ∷ b'o' ∷ b'r' ∷ b':' ∷ b' ' ∷ []

unfoldable pub format_tool_call_raw : ToolCall → Bytes
format_tool_call_raw tc =
    let start = tool_text ++ (b':' ∷ tc.name) in
    let body = stringify tc.output in
    if not (is_no_text tc.err)
    then start ++ (tool_error_text ++ tc.err)
    else if is_no_text body
    then start ++ (b']' ∷ [])
    else start ++ (b']' ∷ b' ' ∷ body)

module _ (normalize_whitespace : Bytes → Bytes) (space_marks : Bytes → List Bool) where
  unfoldable pub summarize_tool_call : ToolCall → ℕ → Bytes
  summarize_tool_call tc limit =
      let body = normalize_whitespace (stringify tc.output) in
      if not (is_no_text tc.err)
      then tc.name ++ (failed_text ++ truncate (normalize_whitespace tc.err) limit)
      else if is_no_text body
      then tc.name
      else tc.name ++ (b':' ∷ b' ' ∷ truncate body limit)

  abbrev pub tool_line : ToolCall → Bytes
  tool_line tc = tool_text ++ (b']' ∷ b' ' ∷ summarize_tool_call tc tool_result_char_limit)

  abbrev pub with_main : Bytes → List Bytes → List Bytes
  with_main main lines = if not (is_no_text main) then main ∷ lines else lines

  -- `formatMessage(m, -1, false)`
  unfoldable pub format_full : Message → Formatted
  format_full m = record {
    role = m.role;
    content =
        join newline
          (with_main (normalize_whitespace m.content) (map format_tool_call_raw m.tool_calls));
  }

  -- `formatMessage(m, limit, true)`
  unfoldable pub format_compact : Message → ℕ → Formatted
  format_compact m limit = record {
    role = m.role;
    content =
        truncate
          (join newline (
            with_main (normalize_whitespace m.content)
              (map tool_line (take tool_result_count_limit m.tool_calls))))
          limit;
  }

  abbrev pub tokens : Formatted → ℕ
  tokens f = estimate (space_marks f.content)

  -- The sum of the estimates.
  unfoldable pub total_of : List Formatted → ℕ
  total_of [] = 0
  total_of (f ∷ full) = tokens f + total_of full

  -- The loop that moves the split, for at most `room` messages, from the total of what is left.
  unfoldable pub split_from : ℕ → ℕ → List Formatted → ℕ → ℕ
  split_from budget zero full total = 0
  split_from budget (suc room) [] total = 0
  split_from budget (suc room) (f ∷ full) total =
      let rest = split_from budget room full (total - tokens f) in
      if ltb budget total then suc rest else 0

  unfoldable pub split_index : ℕ → List Formatted → ℕ
  split_index budget full =
      split_from budget (length full - min_kept_turns * 2) full (total_of full)

  abbrev pub compact_limit : Message → ℕ
  compact_limit m =
      if m.role == "user" then compacted_user_char_limit else compacted_assist_char_limit

  abbrev pub compacted : Message → Formatted
  compacted m = format_compact m (compact_limit m)

  -- The recent messages that have a content.
  unfoldable pub spoken : List Formatted → List Formatted
  spoken [] = []
  spoken (f ∷ full) = let rest = spoken full in if is_no_text f.content then rest else f ∷ rest

-- `itoa`: the digits from the last one; the array of the source has room for 20.
unfoldable pub digits_from : ℕ → ℕ → Bytes → Bytes
digits_from zero n out = out
digits_from (suc fuel) n out =
    let rest = digits_from fuel (n / 10) ((b'0' + n % 10) ∷ out) in if n == 0 then out else rest

unfoldable pub itoa : ℕ → Bytes
itoa n = if n == 0 then b'0' ∷ [] else digits_from n n []

abbrev pub user_label : Bytes
user_label = b'U' ∷ b's' ∷ b'e' ∷ b'r' ∷ b':' ∷ b' ' ∷ []

abbrev pub assistant_label : Bytes
assistant_label = b'A' ∷ b's' ∷ b's' ∷ b'i' ∷ b's' ∷ b't' ∷ b'a' ∷ b'n' ∷ b't' ∷ b':' ∷ b' ' ∷ []

unfoldable pub summary_line : Formatted → Bytes
summary_line f = (if f.role == "user" then user_label else assistant_label) ++ f.content

-- "[Earlier conversation compacted: " and " message(s)]".
abbrev pub compacted_text : Bytes
compacted_text =
    b'[' ∷ b'E' ∷ b'a' ∷ b'r' ∷ b'l' ∷ b'i' ∷ b'e' ∷ b'r' ∷ b' ' ∷ b'c' ∷ b'o' ∷ b'n' ∷ b'v' ∷ b'e'
    ∷ b'r' ∷ b's' ∷ b'a' ∷ b't' ∷ b'i' ∷ b'o' ∷ b'n' ∷ b' ' ∷ b'c' ∷ b'o' ∷ b'm' ∷ b'p' ∷ b'a'
    ∷ b'c' ∷ b't' ∷ b'e' ∷ b'd' ∷ b':' ∷ b' ' ∷ []

abbrev pub messages_text : Bytes
messages_text =
    b' ' ∷ b'm' ∷ b'e' ∷ b's' ∷ b's' ∷ b'a' ∷ b'g' ∷ b'e' ∷ b'(' ∷ b's' ∷ b')' ∷ b']' ∷ []

abbrev pub header : ℕ → Bytes
header dropped = compacted_text ++ (itoa dropped ++ messages_text)

-- `next`, from what is used: a line break stands before all lines but the first.
abbrev pub next_used : ℕ → Bytes → List Bytes → ℕ
next_used used line [] = used + length line
next_used used line (l ∷ kept) = used + length line + 1

-- The loop over the lines, the newest first, with the lines kept and the number of those dropped.
unfoldable pub keep_newest : ℕ → List Bytes → ℕ → List Bytes → List Bytes × ℕ
keep_newest budget [] used kept = (kept, 0)
keep_newest budget (line ∷ older) used kept =
    let next = next_used used line kept in
    let rest = keep_newest budget older next (line ∷ kept) in
    if ltb budget next then (kept, length (line ∷ older)) else rest

abbrev pub with_header : List Bytes × ℕ → List Bytes
with_header (kept, zero) = kept
with_header (kept, suc n) = header (suc n) ∷ kept

unfoldable pub reversed {ℓ} : {A : Type ℓ} → List A → List A → List A
reversed [] out = out
reversed (x ∷ l) out = reversed l (x ∷ out)

unfoldable pub build_summary : List Formatted → ℕ → Bytes
build_summary messages budget =
    let lines = map summary_line messages in
    if leb (length (join newline lines)) budget
    then join newline lines
    else join newline (with_header (keep_newest budget (reversed lines []) 0 []))

module _ (normalize_whitespace : Bytes → Bytes) (space_marks : Bytes → List Bool) where
  unfoldable pub split_by_token_budget : List Message → ℕ → Bytes × List Formatted
  split_by_token_budget messages budget =
      let full = map (format_full normalize_whitespace space_marks) messages in
      let split = split_index normalize_whitespace space_marks budget full in
      (
        build_summary (map (compacted normalize_whitespace space_marks) (take split messages))
            summary_char_budget,
        spoken normalize_whitespace space_marks (drop split full),
      )
