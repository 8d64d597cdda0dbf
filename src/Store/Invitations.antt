-- ===== src/Store/Invitations.antt =====
-- internal/store/memory.go, memInvitationStore: offers of an account. Instants are numbers. The
-- sorted listing is not modelled.
use shellcn.Prelude.{
  ℕ, ◌≡◌, ◌≢◌, refl, inl, inr, String, Bool, true, false, ◌&&◌, List, [], ◌∷◌, Option, none, some,
  arith, ◌==◌, string_eq, if◌then◌else◌, Option-cases, Bool-cases, beq_refl, ltb, All, if_elim,
  ne_of_beq,
}
use mathlib.Core.Path.{subst}
use shellcn.Prelude.Map.{Map, lookup, insert, delete, lookup-insert, lookup-delete}
use shellcn.Store.Errors.{Error, not_found}
use shellcn.Store.Scan.{find_value, create_unless}

-- internal/models/invitation.go
abbrev pub invite_pending : String
invite_pending = "pending"

abbrev pub invite_accepted : String
invite_accepted = "accepted"

pub record Invitation : Type 0 where
  pub id : String
  pub email : String
  pub role : String
  pub token_hash : String
  pub status : String
  pub invited_by : String
  pub created_at : ℕ
  pub expires_at : ℕ
  pub accepted_at : ℕ

abbrev pub Invitations : Type 0
Invitations = Map String Invitation

unfoldable pub create : Invitation → Invitations → Invitations × Option Error
unfolding create_unless
create i m = create_unless (λ a b. a.token_hash == b.token_hash) i.id i m

unfoldable pub get : String → Invitations → Option Invitation
get id m = lookup id m

unfoldable pub get_by_token_hash : String → Invitations → Option Invitation
unfolding find_value
get_by_token_hash token_hash m = find_value (λ i. i.token_hash == token_hash) m

update_over : Invitation → Option Invitation → Invitations → Invitations × Option Error
update_over i none m = (m, some not_found)
update_over i (some old) m = (insert i.id i m, none)

unfoldable pub update : Invitation → Invitations → Invitations × Option Error
unfolding update_over
update i m = update_over i (lookup i.id m) m

abbrev pub may_accept : ℕ → Invitation → Bool
may_accept accepted_at i = i.status == invite_pending && ltb accepted_at i.expires_at

consume_over : String → ℕ → Option Invitation → Invitations → Invitations × Bool
consume_over id accepted_at none m = (m, false)
consume_over id accepted_at (some i) m =
    if may_accept accepted_at i
    then (insert id (record i { status = invite_accepted; accepted_at = accepted_at }) m, true)
    else (m, false)

unfoldable pub consume : String → ℕ → Invitations → Invitations × Bool
unfolding consume_over
consume id accepted_at m = consume_over id accepted_at (lookup id m) m

-- A call that changes the table.
pub data Call : Type 0 where
  creates : Invitation → Call
  updates : Invitation → Call
  consumes : String → ℕ → Call
  deletes : String → Call

unfoldable pub step : Call → Invitations → Invitations
step (creates i) m = (create i m).0
step (updates i) m = (update i m).0
step (consumes id accepted_at) m = (consume id accepted_at m).0
step (deletes id) m = delete id m

unfoldable pub run : List Call → Invitations → Invitations
run [] m = m
run (c ∷ cs) m = run cs (step c m)

-- No one writes the row anew.
abbrev pub LeavesRow : String → Call → Type 0
LeavesRow id (creates i) = i.id ≢ id
LeavesRow id (updates i) = i.id ≢ id
LeavesRow id (consumes k accepted_at) = Unit
LeavesRow id (deletes k) = Unit

abbrev IsSpent : Option Invitation → Type 0
IsSpent none = Unit
IsSpent (some i) = i.status ≢ invite_pending

spent_may_not : (at : ℕ) (i : Invitation) → IsSpent (some i) → may_accept at i ≡ false
spent_may_not at i h = ground (arith, string_eq.same_iff i.status invite_pending)

consume_spent :
    (id : String) (at : ℕ) (m : Invitations) → IsSpent (lookup id m) → consume id at m ≡ (m, false)
unfolding consume consume_over
consume_spent id at m h = elim (Option-cases (lookup id m)) [
  | inl e ↦ rw (e, consume) refl
  | inr (x, e) ↦ rw (e, consume) (rw (spent_may_not at x (subst IsSpent e h)) refl)
]

IsSpent-insert :
    (id k : String) (i : Invitation) (m : Invitations)
    → IsSpent (lookup id m)
    → (k ≡ id → IsSpent (some i))
    → IsSpent (lookup id (insert k i m))
IsSpent-insert id k i m h g = elim (Bool-cases (k == id)) [
  | inl b ↦ rw (lookup-insert k id i m) (rw b (g ((string_eq.same_iff k id).0 b)))
  | inr b ↦ rw (lookup-insert k id i m) (rw b h)
]

accepted_IsSpent :
    (i : Invitation) (at : ℕ)
    → IsSpent (some (record i { status = invite_accepted; accepted_at = at }))
accepted_IsSpent i at = ne_of_beq invite_accepted invite_pending refl

step-IsSpent :
    (id : String) (c : Call) (m : Invitations)
    → LeavesRow id c
    → IsSpent (lookup id m)
    → IsSpent (lookup id (step c m))
unfolding step create create_unless update update_over consume consume_over
step-IsSpent id (creates i) m n h =
    elim (Option-cases (find_value (λ a. a.token_hash == i.token_hash) m)) [
      | inl e ↦ rw (e, step, create) (IsSpent-insert id i.id i m h (λ s. absurd (n s)))
      | inr (x, e) ↦ rw (e, step, create) h
    ]
step-IsSpent id (updates i) m n h = elim (Option-cases (lookup i.id m)) [
  | inl e ↦ rw (e, step, update) h
  | inr (x, e) ↦ rw (e, step, update) (IsSpent-insert id i.id i m h (λ s. absurd (n s)))
]
step-IsSpent id (consumes k at) m n h = elim (Option-cases (lookup k m)) [
  | inl e ↦ rw (e, step, consume) h
  | inr (x, e) ↦
      rw (e, step, consume)
        (if_elim (λ (r : Invitations × Bool). IsSpent (lookup id r.0)) (may_accept at x)
          (insert k (record x { status = invite_accepted; accepted_at = at }) m, true) (m, false)
          (λ t.
            IsSpent-insert id k (record x { status = invite_accepted; accepted_at = at }) m h
              (λ s. accepted_IsSpent x at))
          (λ f. h))
]
step-IsSpent id (deletes k) m n h = elim (Bool-cases (k == id)) [
  | inl b ↦ rw (lookup-delete k id m) (rw b tt)
  | inr b ↦ rw (lookup-delete k id m) (rw b h)
]

run-IsSpent :
    (id : String) (cs : List Call) (m : Invitations)
    → All (LeavesRow id) cs
    → IsSpent (lookup id m)
    → IsSpent (lookup id (run cs m))
unfolding run
run-IsSpent id [] m n h = h
run-IsSpent id (c ∷ cs) m n h = run-IsSpent id cs (step c m) n.1 (step-IsSpent id c m n.0 h)

consumed_IsSpent :
    (id : String) (at : ℕ) (m : Invitations)
    → (consume id at m).1 ≡ true
    → IsSpent (lookup id (consume id at m).0)
unfolding consume consume_over
consumed_IsSpent id at m h = elim (Option-cases (lookup id m)) [
  | inl e ↦ absurd (ground (arith, h, e))
  | inr (x, e) ↦
      let row = record x { status = invite_accepted; accepted_at = at } in
      let t : may_accept at x ≡ true = ground (arith, h, e) in
      rw (e, consume) (rw t (rw (lookup-insert id id row m, beq_refl id) (accepted_IsSpent x at)))
]

-- An invitation is accepted at most once: after a Consume that said yes, and whatever calls follow
-- that do not write the invitation's row anew, a Consume of it says no at every instant and changes
-- nothing.
pub consumed_once :
    (id : String) (at later : ℕ) (cs : List Call) (m : Invitations)
    → (consume id at m).1 ≡ true
    → All (LeavesRow id) cs
    → let m' = run cs (consume id at m).0 in consume id later m' ≡ (m', false)
consumed_once id at later cs m h n =
    consume_spent id later (run cs (consume id at m).0)
      (run-IsSpent id cs (consume id at m).0 n (consumed_IsSpent id at m h))
