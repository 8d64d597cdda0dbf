-- ===== src/Service/Enrollment/Offline.antt =====
-- What is left when the tunnel of a connection's agent closes.
use shellcn.Prelude.{
  ℕ, ◌≡◌, refl, ap, ◌∙◌, inl, inr, String, true, false, ◌&&◌, List, [], ◌∷◌, Option, none, some,
  ◌==◌, string_eq, if◌then◌else◌, Option-cases, Bool-cases, arith,
}
use mathlib.Core.Path.{subst}
use shellcn.Prelude.Map.{lookup, lookup-insert, IsMap}
use shellcn.Store.Enrollments.{
  AgentEnrollment, Enrollments, enrollment_online, enrollment_offline, update_status, status_over,
}
use shellcn.Service.Enrollment.{list_of_connection, mark_from, mark_offline}
use shellcn.Service.Enrollment.Redeemed.{Keyed}

abbrev pub offline : ℕ → AgentEnrollment → AgentEnrollment
offline now e = record e { status = enrollment_offline; updated_at = now }

-- A row after the tunnel of a connection has closed.
abbrev pub closed : String → ℕ → Option AgentEnrollment → Option AgentEnrollment
closed connection_id now none = none
closed connection_id now (some e) =
    if e.connection_id == connection_id && e.status == enrollment_online
    then some (offline now e)
    else some e

abbrev shut : ℕ → Option AgentEnrollment → Option AgentEnrollment
shut now none = none
shut now (some e) = some (offline now e)

-- A row after the loop over `enrollments`.
abbrev after : ℕ → List AgentEnrollment → String → Option AgentEnrollment → Option AgentEnrollment
after now [] k row = row
after now (e ∷ enrollments) k row =
    after now enrollments k
      (if e.status == enrollment_online && e.id == k then shut now row else row)

lookup-update_status :
    (id k : String) (now : ℕ) (m : Enrollments)
    → lookup k (update_status id enrollment_offline now m).0
      ≡ (if id == k then shut now (lookup k m) else lookup k m)
unfolding update_status status_over
lookup-update_status id k now m = elim (Bool-cases (id == k)) [
  | inl b ↦
      let same = (string_eq.same_iff id k).0 b in
      elim (Option-cases (lookup id m)) [
        | inl e ↦
            let gone = subst (λ (x : String). lookup x m ≡ none) same e in
            rw (e, b) (rw (gone) refl)
        | inr (row, e) ↦
            let there = subst (λ (x : String). lookup x m ≡ some row) same e in
            rw (e, b) (ground (arith, lookup-insert id k (offline now row) m, b, there))
      ]
  | inr b ↦ elim (Option-cases (lookup id m)) [
    | inl e ↦ rw (e, b) refl
    | inr (row, e) ↦ rw (e, b) (ground (arith, lookup-insert id k (offline now row) m, b))
  ]
]

lookup-mark_from :
    (now : ℕ) (enrollments : List AgentEnrollment) (k : String) (m : Enrollments)
    → lookup k (mark_from now enrollments m) ≡ after now enrollments k (lookup k m)
unfolding mark_from
lookup-mark_from now [] k m = refl
lookup-mark_from now (e ∷ enrollments) k m = elim (Bool-cases (e.status == enrollment_online)) [
  | inl b ↦ rw b (
      lookup-mark_from now enrollments k (update_status e.id enrollment_offline now m).0
      ∙ ap (after now enrollments k) (lookup-update_status e.id k now m))
  | inr b ↦ rw b (lookup-mark_from now enrollments k m)
]

after-absent :
    (connection_id : String) (now : ℕ) (k : String) (row : Option AgentEnrollment) (m : Enrollments)
    → Keyed m
    → lookup k m ≡ none
    → after now (list_of_connection connection_id m) k row ≡ row
unfolding list_of_connection lookup
after-absent c now k row [] h e = refl
after-absent c now k row ((j, x) ∷ m) h e = elim (Bool-cases (j == k)) [
  | inl b ↦ absurd (ground (arith, b, e))
  | inr b ↦
      let other : (x.id == k) ≡ false = rw h.0 b in
      let ih = after-absent c now k row m h.1 (ground (arith, b, e)) in
      elim (Bool-cases (x.connection_id == c)) [
        | inl f ↦ ground (arith, f, other, ih)
        | inr f ↦ rw f ih
      ]
]

after-present :
    (connection_id : String) (now : ℕ) (k : String) (row : AgentEnrollment) (m : Enrollments)
    → IsMap m
    → Keyed m
    → lookup k m ≡ some row
    → after now (list_of_connection connection_id m) k (some row)
      ≡ closed connection_id now (some row)
unfolding list_of_connection lookup
after-present c now k row [] d h e = absurd (cc)
after-present c now k row ((j, x) ∷ m) d h e = elim (Bool-cases (j == k)) [
  | inl b ↦
      let same = (string_eq.same_iff j k).0 b in
      let equal : x ≡ row = ground (arith, b, e) in
      let gone = subst (λ (y : String). lookup y m ≡ none) same d.0 in
      let own : (x.id == k) ≡ true = (string_eq.same_iff x.id k).1 (h.0 ∙ same) in
      let rest = λ (r : Option AgentEnrollment). after-absent c now k r m h.1 gone in
      subst
        (λ (y : AgentEnrollment).
          after now (list_of_connection c ((j, x) ∷ m)) k (some y) ≡ closed c now (some y))
        equal
        (elim (Bool-cases (x.connection_id == c)) [
          | inr f ↦ rw f (rest (some x))
          | inl f ↦ elim (Bool-cases (x.status == enrollment_online)) [
            | inl o ↦ ground (arith, f, o, own, rest (some (offline now x)))
            | inr o ↦ ground (arith, f, o, rest (some x))
          ]
        ])
  | inr b ↦
      let other : (x.id == k) ≡ false = rw h.0 b in
      let ih = after-present c now k row m d.1 h.1 (ground (arith, b, e)) in
      elim (Bool-cases (x.connection_id == c)) [
        | inl f ↦ ground (arith, f, other, ih)
        | inr f ↦ rw f ih
      ]
]

-- Over a store with one row for each id, under that id, MarkOffline sets the rows of the connection
-- that are online to offline, and leaves every other row as it is.
pub mark_offline_lem :
    (connection_id : String) (now : ℕ) (k : String) (m : Enrollments)
    → IsMap m
    → Keyed m
    → lookup k (mark_offline connection_id now m) ≡ closed connection_id now (lookup k m)
unfolding mark_offline
mark_offline_lem c now k m d h =
    let read = lookup-mark_from now (list_of_connection c m) k m in
    elim (Option-cases (lookup k m)) [
      | inl e ↦ read ∙ (after-absent c now k (lookup k m) m h e ∙ rw e refl)
      | inr (row, e) ↦ read ∙ rw e (after-present c now k row m d h e)
    ]
