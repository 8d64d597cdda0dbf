-- ===== src/Service/Enrollment/Redeemed.antt =====
-- When a token lets an agent in, and what that changes.
use shellcn.Prelude.{
  ℕ, ◌<◌, ◌⊎◌, arith, ◌≡◌, refl, sym, inl, inr, String, true, false, some, ◌==◌, string_eq,
  if◌then◌else◌, Option-cases, Bool-cases,
}
use mathlib.Core.Path.{subst}
use shellcn.Prelude.Map.{lookup, insert, IsMap}
use shellcn.Prelude.Map.Each.{Each, Each-lookup}
use shellcn.Store.Enrollments.{
  AgentEnrollment, Enrollments, enrollment_online, may_join, consume, consume_over,
  get_by_token_hash,
}
use shellcn.Store.Scan.{find_value, find_value-lookup}
use shellcn.Service.Enrollment.{
  Gateway, Redeem, redeemed, enrollment_invalid, no_agent_support, redeem_connection, redeem_token,
}

-- Every enrollment stands under its own id.
abbrev pub Keyed : Enrollments → Type 0
Keyed m = Each (λ k e. e.id ≡ k) m

abbrev pub online : ℕ → AgentEnrollment → AgentEnrollment
online now e = record e { status = enrollment_online; updated_at = now }

pub consume_row :
    (id : String) (now : ℕ) (e : AgentEnrollment) (m : Enrollments)
    → lookup id m ≡ some e
    → consume id now m ≡ (if may_join now e then (insert id (online now e) m, true) else (m, false))
unfolding consume consume_over
consume_row id now e m f = rw f refl

-- An enrollment is pending and not out of time, or has let its agent in before.
abbrev pub MayJoin : ℕ → AgentEnrollment → Type 0
MayJoin now e =
    ((e.status ≡ "pending") × (now < e.expires_at)) ⊎ (e.status ≡ "offline") ⊎ (e.status ≡ "online")

may_join-MayJoin : (now : ℕ) (e : AgentEnrollment) → may_join now e ≡ true → MayJoin now e
may_join-MayJoin now e h = elim (Bool-cases (e.status == "pending")) [
  | inl p ↦ inl ((string_eq.same_iff e.status "pending").0 p, ground (arith, p, h))
  | inr p ↦ elim (Bool-cases (e.status == "offline")) [
    | inl o ↦ inr (inl ((string_eq.same_iff e.status "offline").0 o))
    | inr o ↦ inr (inr ((string_eq.same_iff e.status "online").0 (ground (arith, p, o, h))))
  ]
]

module _ {T : Type 0} (g : Gateway T) where
  -- An agent that is let in: by a row whose token it is and that may join at the instant, to the
  -- connection of that row; the row is then online, and every other row is as it was.
  pub record Joins (token : String) (now : ℕ) (m : Enrollments) (connection_id : String)
      (target : T) (after : Enrollments) : Type 0 where
    pub row : AgentEnrollment
    pub is_stored : lookup row.id m ≡ some row
    pub token_of : row.token_hash ≡ g.hash_token token
    pub joins : MayJoin now row
    pub connection_of : row.connection_id ≡ connection_id
    pub protocol : String
    pub protocol_of : g.protocol connection_id ≡ some protocol
    pub proxy_of : g.proxy protocol ≡ some target
    pub written : after ≡ insert row.id (online now row) m

  -- A refusal changes nothing.
  abbrev pub Outcome : String → ℕ → Enrollments → Enrollments × Redeem T → Type 0
  Outcome token now m (after, redeemed connection_id target) =
      Joins token now m connection_id target after
  Outcome token now m (after, enrollment_invalid) = after ≡ m
  Outcome token now m (after, no_agent_support) = after ≡ m

  Outcome-row :
      (token : String) (now : ℕ) (m : Enrollments) (e : AgentEnrollment)
      → lookup e.id m ≡ some e
      → e.token_hash ≡ g.hash_token token
      → Outcome token now m (redeem_connection g e (g.protocol e.connection_id) now m)
  Outcome-row token now m e f h = elim (Option-cases (g.protocol e.connection_id)) [
    | inl n ↦ rw n refl
    | inr (p, n) ↦ elim (Option-cases (g.proxy p)) [
      | inl q ↦ rw (n, q) refl
      | inr (target, q) ↦ elim (Bool-cases (may_join now e)) [
        | inr b ↦ rw (n, q, consume_row e.id now e m f, b) refl
        | inl b ↦
            rw (n, q, consume_row e.id now e m f, b)
              (record {
                row = e;
                is_stored = f;
                token_of = h;
                joins = may_join-MayJoin now e b;
                connection_of = refl;
                protocol = p;
                protocol_of = n;
                proxy_of = q;
                written = refl;
              })
      ]
    ]
  ]

  -- Over a store with one row for each id, under that id, Redeem lets an agent in only by a row of
  -- the store whose token it presents, which is pending and not out of time at that instant, or
  -- offline or online, to the connection of the row and with what its plugin proxies; the store after
  -- differs only in that row, which is online. A refusal changes nothing.
  pub redeem_lem :
      (token : String) (now : ℕ) (m : Enrollments)
      → IsMap m
      → Keyed m
      → Outcome token now m (redeem_token g token now m)
  unfolding redeem_token get_by_token_hash
  redeem_lem token now m d keyed =
      let hash = g.hash_token token in
      elim (Option-cases (find_value (λ e. e.token_hash == hash) m)) [
        | inl e ↦ rw e refl
        | inr (row, e) ↦
            let (k, l, h) = find_value-lookup (λ e. e.token_hash == hash) row m d e in
            rw e (
              Outcome-row token now m row
                (subst (λ (x : String). lookup x m ≡ some row)
                  (sym (Each-lookup (λ (x : String) (e : AgentEnrollment). e.id ≡ x) k m l keyed))
                  l)
                ((string_eq.same_iff row.token_hash hash).0 h))
      ]
