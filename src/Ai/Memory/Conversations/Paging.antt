-- ===== src/Ai/Memory/Conversations/Paging.antt =====
-- Pages of a conversation's history, from the newest to the oldest.
use shellcn.Prelude.{
  ℕ, zero, suc, ◌+◌, ◌-◌, ◌≤◌, ◌<◌, ◌≡◌, refl, sym, ap, ◌∙◌, ◌↔◌, true, List, ◌++◌, some, String,
  length, ltb, arith,
}
use mathlib.Core.Path.{subst}
use shellcn.Prelude.Int.{ℤ, pos, negsuc}
use shellcn.Prelude.Bytes.{take, drop, take-drop, drop-drop, length-drop, length-take_all}
use shellcn.Ai.Memory.{Message}
use shellcn.Ai.Memory.Conversations.{
  Chats, Conversation, MessagePage, min_ℕ, range_of, page_messages, page_of, messages_page,
  page_limit, page_loaded, get, messages_of,
}

-- A page after `loaded` messages of `all`.
pub record Page (loaded : ℕ) (all : List Message) (p : MessagePage) : Type 0 where
  pub total : p.total_count ≡ length all
  pub within : p.loaded_count ≤ length all
  pub joins : p.messages ++ drop (length all - loaded) all ≡ drop (length all - p.loaded_count) all
  pub counts : p.loaded_count ≡ loaded + length p.messages
  pub more : (p.has_more ≡ true) ↔ (p.loaded_count < length all)
  pub advances : loaded < length all → loaded < p.loaded_count

page_messages_lem :
    (start size : ℕ) (all : List Message)
    → start + size ≤ length all
    → page_messages start size all ≡ take size (drop start all)
unfolding range_of
page_messages_lem start zero all h = refl
page_messages_lem start (suc size) all h = ground (arith, h)

Page-of :
    (limit loaded start size : ℕ) (all : List Message)
    → 1 ≤ limit
    → loaded ≤ length all
    → size ≡ min_ℕ limit (length all - loaded)
    → start ≡ length all - loaded - size
    → Page loaded all (record {
      messages = page_messages start size all;
      loaded_count = loaded + length (page_messages start size all);
      total_count = length all;
      has_more = ltb 0 start;
    })
Page-of limit loaded start size all positive small e f =
    let fits : start + size ≡ length all - loaded = ground (arith, e, f, small, positive) in
    let page = page_messages_lem start size all (omega (arith, fits)) in
    let count : length (page_messages start size all) ≡ size =
      ap length page
      ∙ length-take_all size (drop start all) (omega (arith, length-drop start all, fits, small)) in
    record {
      total = refl;
      within = omega (arith, count, fits, small);
      joins = rw page (
          subst
            (λ (n : ℕ). take size (drop start all) ++ drop (length all - loaded) all ≡ drop n all)
            (omega (arith, count, fits, small, ap length page))
            (subst (λ (l : List Message). take size (drop start all) ++ l ≡ drop start all)
              (drop-drop start size (length all - loaded) all (omega (arith, fits)))
              (take-drop size (drop start all))));
      counts = refl;
      more =
          (λ h. ground (arith, h, count, fits, small), λ h. ground (arith, h, count, fits, small));
      advances = λ h. ground (arith, h, e, count, positive);
    }

page_limit-le : (limit : ℤ) → 1 ≤ page_limit limit
page_limit-le (pos zero) = omega arith
page_limit-le (pos (suc n)) = omega arith
page_limit-le (negsuc n) = omega arith

-- A page of an owned conversation, with a sort that keeps the number of messages: the page stands
-- just before what the client has loaded, its count is that of all that is loaded then, more is said
-- to remain exactly when it does, and a page that is asked before the end is not empty.
pub messages_page_lem :
    (sort : List Message → List Message)
    → ((l : List Message) → length (sort l) ≡ length l)
    → (owner_id id : String) (limit loaded : ℤ) (m : Chats) (c : Conversation)
    → get owner_id id m ≡ some c
    → page_loaded loaded ≤ length (messages_of id m)
    → (p : MessagePage) × (messages_page sort owner_id id limit loaded m ≡ some p)
      × Page (page_loaded loaded) (sort (messages_of id m)) p
unfolding messages_page page_of
messages_page_lem sort keeps owner_id id limit loaded m c found small =
    let stored = messages_of id m in
    let n = page_loaded loaded in
    let size = min_ℕ (page_limit limit) (length stored - n) in
    let start = length stored - n - size in
    let page = page_messages start size (sort stored) in
    (
      record {
        messages = page;
        loaded_count = n + length page;
        total_count = length stored;
        has_more = ltb 0 start;
      },
      rw found refl,
      subst
          (λ (total : ℕ). Page n (sort stored) (record {
            messages = page;
            loaded_count = n + length page;
            total_count = total;
            has_more = ltb 0 start;
          }))
          (keeps stored)
          (Page-of (page_limit limit) n start size (sort stored) (page_limit-le limit)
            (omega (arith, keeps stored, small))
            (ap (λ (t : ℕ). min_ℕ (page_limit limit) (t - n)) (sym (keeps stored)))
            (ap (λ (t : ℕ). t - n - size) (sym (keeps stored)))),
    )
