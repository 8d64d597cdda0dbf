-- ===== src/Ai/Memory/Conversations/Owners.antt =====
-- What a user may do to conversations, and the titles that stay.
use shellcn.Prelude.{
  ℕ, ◌≡◌, ◌≢◌, refl, sym, ap, ◌∙◌, inl, inr, String, false, none, some, ◌==◌, string_eq, Bool-cases,
  Option-cases, arith, beq_refl,
}
use mathlib.Core.Path.{subst}
use shellcn.Prelude.Map.{lookup, insert, lookup-insert, lookup-delete}
use shellcn.Store.Errors.{not_found}
use shellcn.Ai.Memory.Conversations.{
  Chats, Conversation, updated, update_conversation, get, renamed, rename, remove, set_auto_title,
}

-- Every conversation stands under its own id.
abbrev pub Keyed : Chats → Type 0
Keyed m = (k : String) (c : Conversation) → lookup k m.conversations ≡ some c → c.id ≡ k

get-owned :
    (owner_id id : String) (m : Chats) (c : Conversation)
    → get owner_id id m ≡ some c
    → (lookup id m.conversations ≡ some c) × (c.owner_id ≡ owner_id)
unfolding get
get-owned owner_id id m c e = elim (Option-cases (lookup id m.conversations)) [
  | inl f ↦ absurd (ground (arith, e, f))
  | inr (d, f) ↦ (
    ground (arith, e, f, string_eq.same_iff d.owner_id owner_id),
    ground (arith, e, f, string_eq.same_iff d.owner_id owner_id),
  )
]

-- A conversation that the user does not own.
abbrev pub IsOthers : String → String → Conversation → Chats → Type 0
IsOthers owner_id k c m = (lookup k m.conversations ≡ some c) × (c.owner_id ≢ owner_id)

other_id :
    (owner_id id k : String) (m : Chats) (c d : Conversation)
    → get owner_id id m ≡ some c
    → IsOthers owner_id k d m
    → (id == k) ≡ false
other_id owner_id id k m c d e h = elim (Bool-cases (id == k)) [
  | inr b ↦ b
  | inl b ↦
      let (f, o) = get-owned owner_id id m c e in
      let same = (string_eq.same_iff id k).0 b in
      let g = subst (λ (x : String). lookup x m.conversations ≡ some c) same f in
      let equal : c ≡ d = ground (arith, g, h.0) in
      absurd (h.1 (sym (ap (λ (x : Conversation). x.owner_id) equal) ∙ o))
]

update_present :
    (k : String) (c prev : Conversation) (m : Chats)
    → c.id ≡ k
    → lookup k m.conversations ≡ some prev
    → update_conversation c m
      ≡ (record m { conversations = insert k (updated c prev) m.conversations }, none)
unfolding update_conversation
update_present k c prev m e f = rw (e, f) refl

rename_owned :
    (owner_id id title : String) (now : ℕ) (m : Chats) (c : Conversation)
    → Keyed m
    → get owner_id id m ≡ some c
    → rename owner_id id title now m ≡ (
      record m { conversations = insert id (updated (renamed title now c) c) m.conversations },
      none,
    )
unfolding rename
rename_owned owner_id id title now m c keyed e =
    let (f, o) = get-owned owner_id id m c e in
    rw e (update_present id (renamed title now c) c m (keyed id c f) f)

rename-none :
    (owner_id id title : String) (now : ℕ) (m : Chats)
    → get owner_id id m ≡ none
    → rename owner_id id title now m ≡ (m, some not_found)
unfolding rename
rename-none owner_id id title now m e = rw e refl

-- Rename and Delete by a user leave every conversation of others as it is, with its messages.
pub others-kept :
    (owner_id id title k : String) (now : ℕ) (m : Chats) (d : Conversation)
    → Keyed m
    → IsOthers owner_id k d m
    → (lookup k (rename owner_id id title now m).0.conversations ≡ some d)
      × (lookup k (rename owner_id id title now m).0.messages ≡ lookup k m.messages)
      × (lookup k (remove owner_id id m).0.conversations ≡ some d)
      × (lookup k (remove owner_id id m).0.messages ≡ lookup k m.messages)
unfolding remove
others-kept owner_id id title k now m d keyed h = elim (Option-cases (get owner_id id m)) [
  | inl e ↦ rw (rename-none owner_id id title now m e) (rw (e, remove) (h.0, refl, h.0, refl))
  | inr (c, e) ↦
      let apart = other_id owner_id id k m c d e h in
      rw (rename_owned owner_id id title now m c keyed e) (
        rw (e, remove)
          (
            ground (
              arith,
              lookup-insert id k (updated (renamed title now c) c) m.conversations,
              apart,
              h.0,
            ),
            refl,
            ground (arith, lookup-delete id k m.conversations, apart, h.0),
            ground (arith, lookup-delete id k m.messages, apart),
          ))
]

-- A title that a user has given stays when a title is generated later.
pub set_auto_title-rename :
    (owner_id id title generated : String) (now later : ℕ) (m : Chats)
    → Keyed m
    → (rename owner_id id title now m).1 ≡ none
    → set_auto_title id generated later (rename owner_id id title now m).0
      ≡ (rename owner_id id title now m).0
unfolding set_auto_title
set_auto_title-rename owner_id id title generated now later m keyed h =
    elim (Option-cases (get owner_id id m)) [
      | inl e ↦ absurd (ground (arith, h, rename-none owner_id id title now m e))
      | inr (c, e) ↦
          let row = updated (renamed title now c) c in
          let there : lookup id (insert id row m.conversations) ≡ some row =
            ground (arith, lookup-insert id id row m.conversations, beq_refl id) in
          rw (rename_owned owner_id id title now m c keyed e)
            (elim (Bool-cases (generated == "")) [ inl g ↦ rw g refl | inr g ↦ rw (g, there) refl ])
    ]
