-- ===== src/Ai/Memory/Conversations.antt =====
-- internal/ai/memory/memory.go, the methods of `Store`, over memAIConversationStore and
-- memAIMessageStore of internal/store/memory.go. Random ids, the clock, `strings.TrimSpace` and
-- `sort.Slice` by Seq are arguments.
pub mod Paging
pub mod Owners
use shellcn.Prelude.{
  ℕ, zero, suc, ◌+◌, ◌-◌, String, Bool, true, false, not, List, [], ◌∷◌, ◌++◌, Option, none, some,
  ◌==◌, string_eq, if◌then◌else◌, length, ltb, leb, arith,
}
use shellcn.Prelude.Int.{ℤ, pos, negsuc, ltb_ℤ}
use shellcn.Prelude.Map.{Map, lookup, insert, delete}
use shellcn.Prelude.Bytes.{Bytes, take, drop}
use shellcn.Store.Errors.{Error, conflict, not_found}
use shellcn.Ai.Memory.{Message, ToolCall}

-- internal/models/ai.go
pub record Conversation : Type 0 where
  pub id : String
  pub owner_id : String
  pub connection_id : String
  pub title : String
  pub title_resolved : Bool
  pub provider_id : String
  pub model : String
  pub summary : String
  pub created_at : ℕ
  pub updated_at : ℕ

pub record Chats : Type 0 where
  pub conversations : Map String Conversation
  pub messages : Map String (List Message)

-- memAIConversationStore
abbrev pub create_conversation_over :
    Conversation → Option Conversation → Chats → Chats × Option Error
create_conversation_over c none m =
    (record m { conversations = insert c.id c m.conversations }, none)
create_conversation_over c (some old) m = (m, some conflict)

unfoldable pub create_conversation : Conversation → Chats → Chats × Option Error
create_conversation c m = create_conversation_over c (lookup c.id m.conversations) m

-- The owner, the connection and the day of creation stay.
abbrev pub updated : Conversation → Conversation → Conversation
updated c prev = record prev {
  title = c.title;
  title_resolved = c.title_resolved;
  provider_id = c.provider_id;
  model = c.model;
  summary = c.summary;
  updated_at = c.updated_at;
}

abbrev pub update_conversation_over :
    Conversation → Option Conversation → Chats → Chats × Option Error
update_conversation_over c none m = (m, some not_found)
update_conversation_over c (some prev) m =
    (record m { conversations = insert c.id (updated c prev) m.conversations }, none)

unfoldable pub update_conversation : Conversation → Chats → Chats × Option Error
update_conversation c m = update_conversation_over c (lookup c.id m.conversations) m

-- memAIMessageStore
abbrev pub stored_messages : Option (List Message) → List Message
stored_messages none = []
stored_messages (some l) = l

abbrev pub messages_of : String → Chats → List Message
messages_of id m = stored_messages (lookup id m.messages)

unfoldable pub append_message : Message → Chats → Chats
append_message msg m =
    let before = messages_of msg.conversation_id m in
    let numbered =
      if ltb_ℤ msg.seq (pos 0) then record msg { seq = pos (length before) } else msg in
    record m { messages = insert msg.conversation_id (before ++ (numbered ∷ [])) m.messages }

-- `Range` of a list that is sorted.
unfoldable pub range_of : ℕ → ℕ → List Message → List Message
range_of offset limit all = if leb (length all) offset then [] else take limit (drop offset all)

-- `Recent` of a list that is sorted.
unfoldable pub recent_of : ℕ → List Message → List Message
recent_of limit all =
    if ltb 0 limit
    then (if ltb limit (length all) then drop (length all - limit) all else all)
    else all

-- `Get`: a conversation of somebody else is not found.
abbrev pub owned : String → Option Conversation → Option Conversation
owned owner_id none = none
owned owner_id (some c) = if not (c.owner_id == owner_id) then none else some c

unfoldable pub get : String → String → Chats → Option Conversation
get owner_id id m = owned owner_id (lookup id m.conversations)

abbrev pub default_message_page_size : ℕ
default_message_page_size = 30

abbrev pub max_loaded_messages : ℕ
max_loaded_messages = 40

abbrev pub page_limit : ℤ → ℕ
page_limit (pos zero) = default_message_page_size
page_limit (pos (suc n)) = suc n
page_limit (negsuc n) = default_message_page_size

abbrev pub page_loaded : ℤ → ℕ
page_loaded (pos n) = n
page_loaded (negsuc n) = 0

pub record MessagePage : Type 0 where
  pub messages : List Message
  pub loaded_count : ℕ
  pub total_count : ℕ
  pub has_more : Bool

abbrev pub min_ℕ : ℕ → ℕ → ℕ
min_ℕ a b = if ltb b a then b else a

abbrev pub page_messages : ℕ → ℕ → List Message → List Message
page_messages start size all = if ltb 0 size then range_of start size all else []

module _ (sort : List Message → List Message) where
  -- The page, once the conversation is found.
  unfoldable pub page_of : ℕ → ℕ → List Message → MessagePage
  page_of limit loaded stored =
      let total = length stored in
      let size = min_ℕ limit (total - loaded) in
      let start = total - loaded - size in
      let page = page_messages start size (sort stored) in
      record {
        messages = page;
        loaded_count = loaded + length page;
        total_count = total;
        has_more = ltb 0 start;
      }

  abbrev pub page_found : Option Conversation → MessagePage → Option MessagePage
  page_found none page = none
  page_found (some c) page = some page

  -- `none` is ErrNotFound.
  unfoldable pub messages_page : String → String → ℤ → ℤ → Chats → Option MessagePage
  messages_page owner_id id limit loaded m =
      page_found (get owner_id id m)
        (page_of (page_limit limit) (page_loaded loaded) (messages_of id m))

-- `Rename`, from the title that is trimmed.
abbrev pub renamed : String → ℕ → Conversation → Conversation
renamed title now c = record c { title = title; title_resolved = true; updated_at = now }

abbrev pub rename_found : String → ℕ → Option Conversation → Chats → Chats × Option Error
rename_found title now none m = (m, some not_found)
rename_found title now (some c) m = update_conversation (renamed title now c) m

unfoldable pub rename : String → String → String → ℕ → Chats → Chats × Option Error
rename owner_id id title now m = rename_found title now (get owner_id id m) m

abbrev pub remove_found : String → Option Conversation → Chats → Chats × Option Error
remove_found id none m = (m, some not_found)
remove_found id (some c) m =
    (record { conversations = delete id m.conversations; messages = delete id m.messages }, none)

-- `Delete`
unfoldable pub remove : String → String → Chats → Chats × Option Error
remove owner_id id m = remove_found id (get owner_id id m) m

-- `SetAutoTitle`, from the title that is trimmed.
abbrev pub auto_titled : String → ℕ → Option Conversation → Chats → Chats
auto_titled title now none m = m
auto_titled title now (some c) m =
    if c.title_resolved then m else (update_conversation (renamed title now c) m).0

unfoldable pub set_auto_title : String → String → ℕ → Chats → Chats
set_auto_title id title now m =
    if title == "" then m else auto_titled title now (lookup id m.conversations) m

-- `touch`
abbrev pub touch_found : ℕ → Option Conversation → Chats → Chats
touch_found now none m = m
touch_found now (some c) m = (update_conversation (record c { updated_at = now }) m).0

unfoldable pub append_user : String → String → Bytes → ℕ → Chats → Chats
append_user message_id id content now m =
    append_message
      (record {
        id = message_id;
        conversation_id = id;
        seq = negsuc 0;
        role = "user";
        content = content;
        tool_calls = [];
        reasoning = [];
        truncated = false;
        created_at = now;
      })
      m

unfoldable pub append_assistant :
    String → String → Bytes → Bytes → List ToolCall → Bool → ℕ → Chats → Chats
append_assistant message_id id content reasoning calls truncated now m =
    let m' =
      append_message
        (record {
          id = message_id;
          conversation_id = id;
          seq = negsuc 0;
          role = "assistant";
          content = content;
          tool_calls = calls;
          reasoning = reasoning;
          truncated = truncated;
          created_at = now;
        })
        m in
    touch_found now (lookup id m'.conversations) m'
