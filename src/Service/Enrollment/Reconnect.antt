-- ===== src/Service/Enrollment/Reconnect.antt =====
-- An agent that was let in comes back with its token after its tunnel has closed.
use shellcn.Prelude.{
  ℕ, ◌≡◌, refl, sym, ap, ◌∙◌, inl, inr, String, Bool, ◌&&◌, List, [], ◌∷◌, Option, none, some, ◌==◌,
  string_eq, Option-cases, Bool-cases, arith, beq_refl,
}
use mathlib.Core.Path.{subst}
use shellcn.Prelude.Map.{lookup, insert, lookup-insert, IsMap, insert-IsMap}
use shellcn.Prelude.Map.Each.{Each-insert}
use shellcn.Store.Enrollments.{
  AgentEnrollment, Enrollments, enrollment_online, enrollment_offline, get_by_token_hash,
  update_status, status_over,
}
use shellcn.Store.Scan.{find_value, find_value-lookup, find_value-none}
use shellcn.Service.Enrollment.{
  Gateway, Redeem, redeemed, enrollment_invalid, no_agent_support, redeem_connection, redeem_token,
  mark_from, mark_offline, list_of_connection,
}
use shellcn.Service.Enrollment.Redeemed.{Keyed, online, consume_row, Joins, Outcome, redeem_lem}
use shellcn.Service.Enrollment.Offline.{offline, closed, mark_offline_lem}

-- No two rows have one token.
abbrev pub UniqueTokens : Enrollments → Type 0
UniqueTokens m =
    (k j : String) (e f : AgentEnrollment)
    → lookup k m ≡ some e
    → lookup j m ≡ some f
    → e.token_hash ≡ f.token_hash
    → k ≡ j

update_status-IsMap :
    (id status : String) (now : ℕ) (m : Enrollments)
    → IsMap m
    → IsMap (update_status id status now m).0
unfolding update_status status_over
update_status-IsMap id status now m d = elim (Option-cases (lookup id m)) [
  | inl e ↦ rw (e, update_status) d
  | inr (row, e) ↦
      rw (e, update_status) (insert-IsMap id (record row { status = status; updated_at = now }) m d)
]

mark_from-IsMap :
    (now : ℕ) (l : List AgentEnrollment) (m : Enrollments) → IsMap m → IsMap (mark_from now l m)
unfolding mark_from
mark_from-IsMap now [] m d = d
mark_from-IsMap now (e ∷ l) m d = elim (Bool-cases (e.status == enrollment_online)) [
  | inl b ↦ rw b (
      mark_from-IsMap now l (update_status e.id enrollment_offline now m).0
        (update_status-IsMap e.id enrollment_offline now m d))
  | inr b ↦ rw b (mark_from-IsMap now l m d)
]

-- What stands in the store after a closing stood in it before, with the same token.
closed_before :
    (connection_id : String) (now : ℕ) (o : Option AgentEnrollment) (e : AgentEnrollment)
    → closed connection_id now o ≡ some e
    → (b : AgentEnrollment) × (o ≡ some b) × (b.token_hash ≡ e.token_hash)
closed_before c now none e h = absurd (cc)
closed_before c now (some b) e h = (
  b,
  refl,
  elim (Bool-cases (b.connection_id == c && b.status == enrollment_online)) [
    | inl f ↦
        let same : offline now b ≡ e = ground (arith, f, h) in
        ap (λ (x : AgentEnrollment). x.token_hash) same
    | inr f ↦
        let same : b ≡ e = ground (arith, f, h) in ap (λ (x : AgentEnrollment). x.token_hash) same
  ],
)

-- No row but that of `k` has the digest `hash`.
abbrev OnlyAt : String → String → Enrollments → Type 0
OnlyAt hash k m =
    (j : String) (f : AgentEnrollment) → lookup j m ≡ some f → f.token_hash ≡ hash → j ≡ k

get_by_token_hash_only :
    (hash k : String) (e : AgentEnrollment) (m : Enrollments)
    → IsMap m
    → lookup k m ≡ some e
    → e.token_hash ≡ hash
    → OnlyAt hash k m
    → get_by_token_hash hash m ≡ some e
unfolding get_by_token_hash
get_by_token_hash_only hash k e m d at h only =
    let p : AgentEnrollment → Bool = λ x. x.token_hash == hash in
    elim (Option-cases (find_value p m)) [
      | inl n ↦
          absurd (
            ground
              (arith, find_value-none p k e m n at, (string_eq.same_iff e.token_hash hash).1 h))
      | inr (f, n) ↦
          let (j, l, q) = find_value-lookup p f m d n in
          let same = only j f l ((string_eq.same_iff f.token_hash hash).0 q) in
          let there = subst (λ (x : String). lookup x m ≡ some f) same l in n ∙ sym there ∙ at
    ]

OnlyAt-insert :
    (hash k : String) (e : AgentEnrollment) (m : Enrollments)
    → OnlyAt hash k m
    → OnlyAt hash k (insert k e m)
OnlyAt-insert hash k e m only j f l h = elim (Bool-cases (k == j)) [
  | inl b ↦ sym ((string_eq.same_iff k j).0 b)
  | inr b ↦ only j f (ground (arith, lookup-insert k j e m, l, b)) h
]

OnlyAt-mark_offline :
    (connection_id : String) (now : ℕ) (hash k : String) (m : Enrollments)
    → IsMap m
    → Keyed m
    → OnlyAt hash k m
    → OnlyAt hash k (mark_offline connection_id now m)
OnlyAt-mark_offline c now hash k m d keyed only j f l h =
    let (b, at, same) =
      closed_before c now (lookup j m) f (sym (mark_offline_lem c now j m d keyed) ∙ l) in
    only j b at (same ∙ h)

mark_offline-IsMap :
    (connection_id : String) (now : ℕ) (m : Enrollments)
    → IsMap m
    → IsMap (mark_offline connection_id now m)
unfolding mark_offline
mark_offline-IsMap c now m d = mark_from-IsMap now (list_of_connection c m) m d

module _ {T : Type 0} (g : Gateway T) where
  Joins-of :
      (token : String) (now : ℕ) (m : Enrollments) (c : String) (target : T)
      (r : Enrollments × Redeem T)
      → Outcome g token now m r
      → r.1 ≡ redeemed c target
      → Joins g token now m c target r.0
  Joins-of token now m c target (after, redeemed c' target') j e =
      let same_id : c' ≡ c = ground (arith, e) in
      let same_target : target' ≡ target = ground (arith, e) in
      subst (λ (x : T). Joins g token now m c x after) same_target
        (subst (λ (x : String). Joins g token now m x target' after) same_id j)
  Joins-of token now m c target (after, enrollment_invalid) j e = absurd (cc)
  Joins-of token now m c target (after, no_agent_support) j e = absurd (cc)

  -- The row by which the agent came in, after its tunnel has closed.
  abbrev back : ℕ → ℕ → AgentEnrollment → AgentEnrollment
  back now gone row = offline gone (online now row)

  -- A row that stands under its id and is offline lets its agent in.
  redeem-back :
      (now gone later : ℕ) (row : AgentEnrollment) (m : Enrollments) (protocol : String)
      (target : T)
      → lookup row.id m ≡ some (back now gone row)
      → g.protocol row.connection_id ≡ some protocol
      → g.proxy protocol ≡ some target
      → (redeem_connection g (back now gone row) (g.protocol row.connection_id) later m).1
        ≡ redeemed row.connection_id target
  redeem-back now gone later row m protocol target at p q =
      rw (p, q, consume_row row.id later (back now gone row) m at) refl

  -- The store after an agent has come in by `row` at `now` and its tunnel has closed at `gone`.
  abbrev left : ℕ → ℕ → AgentEnrollment → Enrollments → Enrollments
  left now gone row m = mark_offline row.connection_id gone (insert row.id (online now row) m)

  lookup-left :
      (now gone : ℕ) (row : AgentEnrollment) (m : Enrollments)
      → IsMap m
      → Keyed m
      → lookup row.id (left now gone row m) ≡ some (back now gone row)
  lookup-left now gone row m d keyed =
      let m1 = insert row.id (online now row) m in
      let d1 = insert-IsMap row.id (online now row) m d in
      let k1 =
        Each-insert (λ (x : String) (e : AgentEnrollment). e.id ≡ x) row.id (online now row) m refl
          keyed in
      let at : lookup row.id m1 ≡ some (online now row) =
        ground (arith, lookup-insert row.id row.id (online now row) m, beq_refl row.id) in
      mark_offline_lem row.connection_id gone row.id m1 d1 k1
      ∙ ap (closed row.connection_id gone) at
      ∙ rw (beq_refl row.connection_id) refl

  redeem-left :
      (token : String) (now gone later : ℕ) (m after : Enrollments) (connection_id : String)
      (target : T)
      → IsMap m
      → Keyed m
      → UniqueTokens m
      → (j : Joins g token now m connection_id target after)
      → (redeem_token g token later (left now gone j.row m)).1 ≡ redeemed j.row.connection_id target
  unfolding redeem_token
  redeem-left token now gone later m after c target d keyed unique j =
      let row = j.row in
      let hash = g.hash_token token in
      let d1 = insert-IsMap row.id (online now row) m d in
      let k1 =
        Each-insert (λ (x : String) (e : AgentEnrollment). e.id ≡ x) row.id (online now row) m refl
          keyed in
      let only : OnlyAt hash row.id m =
        λ i f l h. unique i row.id f row l j.is_stored (h ∙ sym j.token_of) in
      let only1 = OnlyAt-insert hash row.id (online now row) m only in
      let m2 = left now gone row m in
      let at = lookup-left now gone row m d keyed in
      let found =
        get_by_token_hash_only hash row.id (back now gone row) m2
          (mark_offline-IsMap row.connection_id gone (insert row.id (online now row) m) d1) at
          j.token_of
          (OnlyAt-mark_offline row.connection_id gone hash row.id (insert row.id (online now row) m)
            d1 k1 only1) in
      rw found (
        redeem-back now gone later row m2 j.protocol target at
          (ap g.protocol j.connection_of ∙ j.protocol_of) j.proxy_of)

  -- Over a store with one row for each id, under that id, and with no token of two rows: an agent
  -- that Redeem lets in is let in again, to the same connection and the same target, by the same
  -- token at any later call after MarkOffline has closed its connection, also after the token would
  -- have run out.
  pub redeem_reconnects :
      (token : String) (now gone later : ℕ) (m : Enrollments) (connection_id : String) (target : T)
      → IsMap m
      → Keyed m
      → UniqueTokens m
      → (redeem_token g token now m).1 ≡ redeemed connection_id target
      → (redeem_token g token later
          (mark_offline connection_id gone (redeem_token g token now m).0)).1
        ≡ redeemed connection_id target
  redeem_reconnects token now gone later m c target d keyed unique e =
      let r = redeem_token g token now m in
      let j = Joins-of token now m c target r (redeem_lem g token now m d keyed) e in
      rw (j.written) (
        subst
          (λ (x : String).
            (redeem_token g token later
              (mark_offline x gone (insert j.row.id (online now j.row) m))).1
            ≡ redeemed x target)
          j.connection_of (redeem-left token now gone later m r.0 c target d keyed unique j))
