-- ===== src/Store/Enrollments.antt =====
-- internal/store/memory.go, memEnrollmentStore: the tokens by which agents join. Instants are
-- numbers, and the clock that `UpdateStatus` and `UpdateToken` read is an argument.
use shellcn.Prelude.{
  ℕ, ◌≡◌, ◌≢◌, refl, ap, inl, inr, String, Bool, true, false, ◌||◌, List, [], ◌∷◌, Option, none,
  some, arith, ◌==◌, string_eq, if◌then◌else◌, Option-cases, Bool-cases, beq_refl, ltb, All, sym,
  ◌∙◌, if_elim,
}
use mathlib.Core.Path.{subst}
use shellcn.Prelude.Map.{Map, lookup, insert, lookup-insert}
use shellcn.Store.Errors.{Error, not_found}
use shellcn.Store.Scan.{find_value, create_unless}

-- internal/models/connection.go
abbrev pub enrollment_pending : String
enrollment_pending = "pending"

abbrev pub enrollment_online : String
enrollment_online = "online"

abbrev pub enrollment_offline : String
enrollment_offline = "offline"

abbrev pub enrollment_revoked : String
enrollment_revoked = "revoked"

pub record AgentEnrollment : Type 0 where
  pub id : String
  pub connection_id : String
  pub token_hash : String
  pub status : String
  pub expires_at : ℕ
  pub created_at : ℕ
  pub updated_at : ℕ

abbrev pub Enrollments : Type 0
Enrollments = Map String AgentEnrollment

unfoldable pub create : AgentEnrollment → Enrollments → Enrollments × Option Error
unfolding create_unless
create e m = create_unless (λ a b. a.token_hash == b.token_hash) e.id e m

unfoldable pub get_by_token_hash : String → Enrollments → Option AgentEnrollment
unfolding find_value
get_by_token_hash token_hash m = find_value (λ e. e.token_hash == token_hash) m

unfoldable pub status_over :
    String → String → ℕ → Option AgentEnrollment → Enrollments → Enrollments × Option Error
status_over id status now none m = (m, some not_found)
status_over id status now (some e) m =
    (insert id (record e { status = status; updated_at = now }) m, none)

unfoldable pub update_status : String → String → ℕ → Enrollments → Enrollments × Option Error
unfolding status_over
update_status id status now m = status_over id status now (lookup id m) m

token_over :
    String → String → ℕ → ℕ → Option AgentEnrollment → Enrollments → Enrollments × Option Error
token_over id token_hash expires_at now none m = (m, some not_found)
token_over id token_hash expires_at now (some e) m = (
  insert id (record e { token_hash = token_hash; expires_at = expires_at; updated_at = now }) m,
  none,
)

unfoldable pub update_token : String → String → ℕ → ℕ → Enrollments → Enrollments × Option Error
unfolding token_over
update_token id token_hash expires_at now m =
    token_over id token_hash expires_at now (lookup id m) m

-- The switch of `Consume` on the status.
abbrev pub may_join : ℕ → AgentEnrollment → Bool
may_join now e =
    if e.status == enrollment_pending
    then ltb now e.expires_at
    else e.status == enrollment_offline || e.status == enrollment_online

unfoldable pub consume_over : String → ℕ → Option AgentEnrollment → Enrollments → Enrollments × Bool
consume_over id now none m = (m, false)
consume_over id now (some e) m =
    if may_join now e
    then (insert id (record e { status = enrollment_online; updated_at = now }) m, true)
    else (m, false)

unfoldable pub consume : String → ℕ → Enrollments → Enrollments × Bool
unfolding consume_over
consume id now m = consume_over id now (lookup id m) m

-- The calls of the store that write.
pub data Call : Type 0 where
  creates : AgentEnrollment → Call
  consumes : String → ℕ → Call
  sets_status : String → String → ℕ → Call
  sets_token : String → String → ℕ → ℕ → Call

unfoldable pub step : Call → Enrollments → Enrollments
step (creates e) m = (create e m).0
step (consumes id now) m = (consume id now m).0
step (sets_status id status now) m = (update_status id status now m).0
step (sets_token id token_hash expires_at now) m = (update_token id token_hash expires_at now m).0

unfoldable pub run : List Call → Enrollments → Enrollments
run [] m = m
run (c ∷ cs) m = run cs (step c m)

-- The call neither sets the status of the row nor creates a row under its id.
abbrev pub KeepsStatus : String → Call → Type 0
KeepsStatus id (creates e) = e.id ≢ id
KeepsStatus id (consumes k now) = Unit
KeepsStatus id (sets_status k status now) = k ≢ id
KeepsStatus id (sets_token k hash expires_at now) = Unit

abbrev IsBarred : Option AgentEnrollment → Type 0
IsBarred none = Unit
IsBarred (some e) =
    (e.status ≢ enrollment_pending)
    × (e.status ≢ enrollment_offline)
    × (e.status ≢ enrollment_online)

barred_may_not : (now : ℕ) (e : AgentEnrollment) → IsBarred (some e) → may_join now e ≡ false
barred_may_not now e h = ground (
  arith,
  string_eq.same_iff e.status enrollment_pending,
  string_eq.same_iff e.status enrollment_offline,
  string_eq.same_iff e.status enrollment_online,
)

IsBarred-at :
    (id : String) (e : AgentEnrollment) (m : Enrollments)
    → IsBarred (lookup id m)
    → lookup id m ≡ some e
    → IsBarred (some e)
IsBarred-at id e m h f = subst IsBarred f h

consume_barred :
    (id : String) (now : ℕ) (m : Enrollments)
    → IsBarred (lookup id m)
    → consume id now m ≡ (m, false)
unfolding consume consume_over
consume_barred id now m h = elim (Option-cases (lookup id m)) [
  | inl e ↦ rw (e, consume) refl
  | inr (x, e) ↦ rw (e, consume) (rw (barred_may_not now x (IsBarred-at id x m h e)) refl)
]

-- Writing a row that keeps the status of the one before it.
IsBarred-insert :
    (id k : String) (old e : AgentEnrollment) (m : Enrollments)
    → lookup k m ≡ some old
    → IsBarred (lookup id m)
    → (k ≡ id → IsBarred (some old) → IsBarred (some e))
    → IsBarred (lookup id (insert k e m))
IsBarred-insert id k old e m f h g = elim (Bool-cases (k == id)) [
  | inl b ↦
      let same = (string_eq.same_iff k id).0 b in
      rw (lookup-insert k id e m)
        (rw b (g same (IsBarred-at id old m h (sym (ap (λ (t : String). lookup t m) same) ∙ f))))
  | inr b ↦ rw (lookup-insert k id e m) (rw b h)
]

step-IsBarred :
    (id : String) (c : Call) (m : Enrollments)
    → KeepsStatus id c
    → IsBarred (lookup id m)
    → IsBarred (lookup id (step c m))
unfolding step create create_unless consume consume_over update_status status_over update_token
    token_over
step-IsBarred id (creates e) m n h =
    let same : AgentEnrollment → Bool = λ a. a.token_hash == e.token_hash in
    elim (Option-cases (find_value same m)) [
      | inr (x, f) ↦ rw (f, step, create) h
      | inl f ↦
          rw (f, step, create)
            (elim (Bool-cases (e.id == id)) [
              | inl b ↦ absurd (n ((string_eq.same_iff e.id id).0 b))
              | inr b ↦ rw (lookup-insert e.id id e m) (rw b h)
            ])
    ]
step-IsBarred id (consumes k now) m n h = elim (Option-cases (lookup k m)) [
  | inl e ↦ rw (e, step, consume) h
  | inr (x, e) ↦
      rw (e, step, consume)
        (if_elim (λ (r : Enrollments × Bool). IsBarred (lookup id r.0)) (may_join now x)
          (insert k (record x { status = enrollment_online; updated_at = now }) m, true) (m, false)
          (λ t.
            IsBarred-insert id k x (record x { status = enrollment_online; updated_at = now }) m e h
              (λ s b. absurd (ground (arith, t, barred_may_not now x b))))
          (λ f. h))
]
step-IsBarred id (sets_status k status now) m n h = elim (Option-cases (lookup k m)) [
  | inl e ↦ rw (e, step, update_status) h
  | inr (x, e) ↦
      rw (e, step, update_status)
        (IsBarred-insert id k x (record x { status = status; updated_at = now }) m e h
          (λ s b. absurd (n s)))
]
step-IsBarred id (sets_token k hash expires_at now) m n h = elim (Option-cases (lookup k m)) [
  | inl e ↦ rw (e, step, update_token) h
  | inr (x, e) ↦
      rw (e, step, update_token)
        (IsBarred-insert id k x
          (record x { token_hash = hash; expires_at = expires_at; updated_at = now }) m e h
          (λ s b. b))
]

run-IsBarred :
    (id : String) (cs : List Call) (m : Enrollments)
    → All (KeepsStatus id) cs
    → IsBarred (lookup id m)
    → IsBarred (lookup id (run cs m))
unfolding run
run-IsBarred id [] m n h = h
run-IsBarred id (c ∷ cs) m n h = run-IsBarred id cs (step c m) n.1 (step-IsBarred id c m n.0 h)

IsBarred-update_status :
    (id status : String) (now : ℕ) (m : Enrollments)
    → status ≢ enrollment_pending
    → status ≢ enrollment_offline
    → status ≢ enrollment_online
    → IsBarred (lookup id (update_status id status now m).0)
unfolding update_status status_over
IsBarred-update_status id status now m p o n = elim (Option-cases (lookup id m)) [
  | inl e ↦ rw (e, update_status) (rw e tt)
  | inr (x, e) ↦
      let row = record x { status = status; updated_at = now } in
      rw (e, update_status) (rw (lookup-insert id id row m, beq_refl id) (p, o, n))
]

-- Once the status of an enrollment was set to one that is neither pending, offline nor online, such
-- as revoked, Consume of it answers no at every instant and changes nothing, whatever calls of the
-- store came in between that did not set its status again and did not create a row under its id:
-- new tokens and new rows do not help.
pub revoked_stays_out :
    (id status : String) (now later : ℕ) (cs : List Call) (m : Enrollments)
    → status ≢ enrollment_pending
    → status ≢ enrollment_offline
    → status ≢ enrollment_online
    → All (KeepsStatus id) cs
    → let m' = run cs (update_status id status now m).0 in consume id later m' ≡ (m', false)
revoked_stays_out id status now later cs m p o n keeps =
    consume_barred id later (run cs (update_status id status now m).0) (
      run-IsBarred id cs (update_status id status now m).0 keeps
        (IsBarred-update_status id status now m p o n))
