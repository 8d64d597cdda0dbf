-- ===== src/Auth/SingleUse.antt =====
-- A ticket opens the stream that it names, once.
use shellcn.Prelude.{
  ℕ, ◌+◌, ◌-◌, ◌≤◌, ◌<◌, ◌≡◌, ◌≢◌, refl, sym, ap, ◌∙◌, inl, inr, String, true, false, List, some,
  arith, string_eq, nat_eq, Option-cases, ◌⊎◌, All, ne_of_beq,
}
use shellcn.Prelude.Int.{pos, pos_part}
use shellcn.Prelude.Map.{IsMap}
use shellcn.Store.Leases.{Leases}
use shellcn.Store.Leases.Hold.{Call, run, Undisturbed}
use shellcn.Live.{
  Outside, InstanceRef, ClaimOptions, claim_exclusive, claim_replace, with_defaults, StoreLease,
  Claimed, lease, refused, lease_held, registry_claim,
}
use shellcn.Live.Claims.{registry_claim_excludes, lease_expires_at}
use shellcn.Auth.Jwt.{Claims, Expected, Jwt}
use shellcn.Auth.Ticket.{
  TicketScope, Clock, remaining, ticket_key, expected, was_claimed, redeem_claims, redeem,
}

module _ (jwt : Jwt) (o : Outside) where
  was_claimed-lease :
      (r : Leases × Claimed) → (was_claimed jwt o r).1 ≡ true → (l : StoreLease) × (r.1 ≡ lease l)
  unfolding was_claimed
  was_claimed-lease (m, lease l) h = (l, refl)
  was_claimed-lease (m, refused x) h = absurd (cc)

  was_claimed-store : (r : Leases × Claimed) → (was_claimed jwt o r).0 ≡ r.0
  unfolding was_claimed
  was_claimed-store (m, lease l) = refl
  was_claimed-store (m, refused x) = refl

  abbrev for_ticket : ℕ → ClaimOptions
  for_ticket ttl = record { mode = claim_exclusive; ttl = pos ttl }

  for_ticket_ttl : (ttl : ℕ) → 0 < ttl → pos_part (with_defaults (for_ticket ttl)).ttl ≡ ttl
  unfolding with_defaults
  for_ticket_ttl ttl h = ground arith

  for_ticket_mode : (ttl : ℕ) → (with_defaults (for_ticket ttl)).mode ≢ claim_replace
  unfolding with_defaults
  for_ticket_mode ttl = ne_of_beq claim_exclusive claim_replace refl

  -- A redemption that succeeds has claimed the ticket's key.
  redeemed :
      (i : InstanceRef) (want : TicketScope) (id : String) (t : Clock) (m : Leases) (c : Claims)
      → (redeem_claims jwt o i want id t m (some c)).1 ≡ true
      → let ttl = remaining c.expires_at t.read_at in
        (0 < ttl)
        × (redeem_claims jwt o i want id t m (some c)
            ≡ was_claimed jwt o
                (registry_claim o (ticket_key c.id) i (for_ticket ttl) id t.claimed_at m))
  unfolding redeem_claims
  redeemed i want id t m c h = (ground arith, ground arith)

  redeem_again :
      (i : InstanceRef) (want : TicketScope) (id : String) (t : Clock) (m : Leases) (c : Claims)
      (name : String)
      → (let ttl = remaining c.expires_at t.read_at in
          registry_claim o (ticket_key c.id) i (for_ticket ttl) id t.claimed_at m
          ≡ (m, refused (lease_held name)))
      → redeem_claims jwt o i want id t m (some c) ≡ (m, false)
  unfolding redeem_claims was_claimed
  redeem_again i want id t m c name e = ground (arith, e)

  redeem_late :
      (i : InstanceRef) (want : TicketScope) (id : String) (t : Clock) (m : Leases) (c : Claims)
      (exp : ℕ)
      → c.expires_at ≡ some exp
      → exp ≤ t.read_at
      → redeem_claims jwt o i want id t m (some c) ≡ (m, false)
  unfolding redeem_claims
  redeem_late i want id t m c exp e l = ground (arith, e)

  claims_once :
      (i i' : InstanceRef) (want want' : TicketScope) (id id' : String) (t t' : Clock) (m : Leases)
      (c : Claims) (exp : ℕ) (cs : List (ℕ × Call))
      → IsMap m
      → c.expires_at ≡ some exp
      → (redeem_claims jwt o i want id t m (some c)).1 ≡ true
      → All (Undisturbed (ticket_key c.id) id (t.claimed_at + (exp - t.read_at))) cs
      → t'.claimed_at < t.claimed_at + (exp - t.read_at)
      → i'.id ≢ ""
      → let m' = run o.unmarshal cs (redeem_claims jwt o i want id t m (some c)).0 in
        redeem_claims jwt o i' want' id' t' m' (some c) ≡ (m', false)
  claims_once i i' want want' id id' t t' m c exp cs w e h u s n =
      let key = ticket_key c.id in
      let ttl = remaining c.expires_at t.read_at in
      let ttl' = remaining c.expires_at t'.read_at in
      let (positive, same) = redeemed i want id t m c h in
      let r = registry_claim o key i (for_ticket ttl) id t.claimed_at m in
      let (l, g) = was_claimed-lease r (sym (ap (λ p. p.1) same) ∙ h) in
      let x : l.ref.expires_at ≡ t.claimed_at + (exp - t.read_at) =
        lease_expires_at o key i (for_ticket ttl) id t.claimed_at m l g
        ∙ rw (for_ticket_ttl ttl positive, e) refl in
      let (name, f) =
        registry_claim_excludes o key i i' (for_ticket ttl) (for_ticket ttl') id id' t.claimed_at
          t'.claimed_at m l cs w g (rw x u) (rw x s) n (for_ticket_mode ttl') in
      rw (ap (λ p. p.0) same ∙ was_claimed-store r)
        (redeem_again i' want' id' t' (run o.unmarshal cs r.0) c name f)

  once_or_late :
      (i i' : InstanceRef) (want want' : TicketScope) (id id' : String) (t t' : Clock) (m : Leases)
      (c : Claims) (exp : ℕ) (cs : List (ℕ × Call))
      → IsMap m
      → c.expires_at ≡ some exp
      → (redeem_claims jwt o i want id t m (some c)).1 ≡ true
      → All (Undisturbed (ticket_key c.id) id (t.claimed_at + (exp - t.read_at))) cs
      → (t'.claimed_at < t.claimed_at + (exp - t.read_at)) ⊎ (exp ≤ t'.read_at)
      → i'.id ≢ ""
      → let m' = run o.unmarshal cs (redeem_claims jwt o i want id t m (some c)).0 in
        redeem_claims jwt o i' want' id' t' m' (some c) ≡ (m', false)
  once_or_late i i' want want' id id' t t' m c exp cs w e h u (inl s) n =
      claims_once i i' want want' id id' t t' m c exp cs w e h u s n
  once_or_late i i' want want' id id' t t' m c exp cs w e h u (inr s) n =
      redeem_late i' want' id' t' _ c exp e s

  parsed_again :
      (i : InstanceRef) (want : TicketScope) (token id : String) (t : Clock) (m : Leases)
      (x : Expected) (c : Claims)
      → jwt.parse x token ≡ some c
      → redeem_claims jwt o i want id t m (some c) ≡ (m, false)
      → redeem jwt o i want token id t m ≡ (m, false)
  unfolding redeem redeem_claims
  parsed_again i want token id t m x c p h =
      elim (Option-cases (jwt.parse (expected jwt o want t.parsed_at) token)) [
        | inl e ↦ rw (e, redeem) refl
        | inr (d, e) ↦
            rw (e, redeem) (rw (jwt.parse_same (expected jwt o want t.parsed_at) x token d c e p) h)
      ]

  -- Once a ticket has been redeemed, no instance redeems it again, for whatever scope: a redemption
  -- is refused and leaves the store as it is if it reaches the store before the lease of the first
  -- one lapses, or reads the clock after the ticket's own end. In between any calls may reach the
  -- store, short of a replacing claim of the ticket's key, a release with the lease's id and a
  -- renewal with that id to an earlier instant.
  pub redeemed_once :
      (i i' : InstanceRef) (want want' : TicketScope) (token id id' : String) (t t' : Clock)
      (m : Leases) (c : Claims) (exp : ℕ) (cs : List (ℕ × Call))
      → IsMap m
      → jwt.parse (expected jwt o want t.parsed_at) token ≡ some c
      → c.expires_at ≡ some exp
      → (redeem jwt o i want token id t m).1 ≡ true
      → All (Undisturbed (ticket_key c.id) id (t.claimed_at + (exp - t.read_at))) cs
      → (t'.claimed_at < t.claimed_at + (exp - t.read_at)) ⊎ (exp ≤ t'.read_at)
      → i'.id ≢ ""
      → let m' = run o.unmarshal cs (redeem jwt o i want token id t m).0 in
        redeem jwt o i' want' token id' t' m' ≡ (m', false)
  unfolding redeem
  redeemed_once i i' want want' token id id' t t' m c exp cs w p e h u s n =
      let first : redeem jwt o i want token id t m ≡ redeem_claims jwt o i want id t m (some c) =
        rw (p, redeem) refl in
      let m' = run o.unmarshal cs (redeem jwt o i want token id t m).0 in
      parsed_again i' want' token id' t' m' (expected jwt o want t.parsed_at) c p (
        rw first (
          once_or_late i i' want want' id id' t t' m c exp cs w e (sym (ap (λ p. p.1) first) ∙ h) u
            s n))
