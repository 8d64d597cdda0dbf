-- ===== src/Ai/MemoryTests.antt =====
-- Runs of the history's functions, and the theorems at a concrete conversation.
use shellcn.Prelude.{
  ◌≡◌, refl, String, Bool, false, List, [], ◌∷◌, map, length, none, some, arith, string_eq, nat_eq,
  ◌==◌, ◌-◌, ◌*◌, ◌≤◌,
}
use shellcn.Prelude.Int.{pos, negsuc}
use shellcn.Prelude.Map.{lookup}
use shellcn.Prelude.Bytes.{Bytes}
use shellcn.Ai.Memory.{
  Message, Formatted, truncate, format_full, min_kept_turns, itoa, digits_from, summary_line,
}
use shellcn.Ai.Memory.Window.{Split, split_by_token_budget_lem}
use shellcn.Ai.Memory.Summary.{Newest, build_summary_lem}
use shellcn.Ai.Memory.Conversations.{
  Conversation, Chats, messages_of, get, rename, update_conversation,
}
use shellcn.Ai.Memory.Conversations.Paging.{Page, messages_page_lem}
use shellcn.Ai.Memory.Conversations.Owners.{Keyed, IsOthers, others-kept}

printed_2026 : itoa 2026 ≡ b'2' ∷ b'0' ∷ b'2' ∷ b'6' ∷ []
unfolding itoa digits_from
printed_2026 = refl

-- "abc" cut after two bytes.
cut_after_two : truncate (b'a' ∷ b'b' ∷ b'c' ∷ []) 2 ≡ b'a' ∷ b'b' ∷ 226 ∷ 128 ∷ 166 ∷ []
unfolding truncate
cut_after_two = refl

abbrev said : String → Bytes → Message
said role content = record {
  id = "m";
  conversation_id = "c1";
  seq = pos 0;
  role = role;
  content = content;
  tool_calls = [];
  reasoning = [];
  truncated = false;
  created_at = 0;
}

abbrev two_messages : List Message
two_messages = said "user" (b'h' ∷ b'i' ∷ []) ∷ said "assistant" (b'y' ∷ b'o' ∷ []) ∷ []

abbrev marks : Bytes → List Bool
marks [] = []
marks (b ∷ s) = (b == b' ') ∷ marks s

split_by_token_budget_lem_example :
    Split
      (λ s. s)
      marks
      100
      (length two_messages - min_kept_turns * 2)
      (map (format_full (λ s. s) marks) two_messages)
      (split_by_token_budget_lem (λ s. s) marks two_messages 100).0
split_by_token_budget_lem_example = (split_by_token_budget_lem (λ s. s) marks two_messages 100).1

abbrev lines : List Formatted
lines =
    record { role = "user"; content = b'h' ∷ b'i' ∷ [] }
    ∷ record { role = "assistant"; content = b'y' ∷ b'o' ∷ [] }
    ∷ []

build_summary_lem_example :
    Newest 20 (map summary_line lines) (build_summary_lem lines 20).0 (build_summary_lem lines 20).1
build_summary_lem_example = (build_summary_lem lines 20).2

abbrev chat : Conversation
chat = record {
  id = "c1";
  owner_id = "u1";
  connection_id = "k1";
  title = "New conversation";
  title_resolved = false;
  provider_id = "";
  model = "m";
  summary = "";
  created_at = 0;
  updated_at = 0;
}

chats : Chats
chats = record { conversations = ("c1", chat) ∷ []; messages = ("c1", two_messages) ∷ [] }

chats-get : get "u1" "c1" chats ≡ some chat
unfolding chats get lookup
chats-get = refl

nothing_loaded : 0 ≤ length (messages_of "c1" chats)
nothing_loaded = omega arith

messages_page_lem_example :
    Page 0
      (messages_of "c1" chats)
      (messages_page_lem
        (λ l. l)
        (λ l. refl)
        "u1"
        "c1"
        (pos 1)
        (negsuc 4)
        chats
        chat
        chats-get
        nothing_loaded).0
messages_page_lem_example =
    (messages_page_lem (λ l. l) (λ l. refl) "u1" "c1" (pos 1) (negsuc 4) chats chat chats-get
      nothing_loaded).2

chats-Keyed : Keyed chats
unfolding chats lookup
chats-Keyed k c e = ground (arith, e, string_eq.same_iff "c1" k)

chats-IsOthers : IsOthers "u2" "c1" chat chats
unfolding chats lookup
chats-IsOthers = (refl, λ e. ground (arith, string_eq.same_iff "u1" "u2", e))

others-kept_example : lookup "c1" (rename "u2" "c1" "Mine" 5 chats).0.conversations ≡ some chat
others-kept_example = (others-kept "u2" "c1" "Mine" "c1" 5 chats chat chats-Keyed chats-IsOthers).0

renamed_chat : (rename "u1" "c1" "Servers" 5 chats).1 ≡ none
unfolding chats lookup rename get update_conversation
renamed_chat = refl
