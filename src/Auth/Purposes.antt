-- ===== src/Auth/Purposes.antt =====
-- A token of one kind is no token of another, even under one signing key.
use shellcn.Prelude.{
  ℕ, ◌+◌, ◌≡◌, ◌≢◌, refl, inl, inr, String, Bool, true, false, List, [], Option, none, some, arith,
  string_eq, ◌⊎◌, ne_of_beq,
}
use shellcn.Prelude.Int.{ℤ}
use shellcn.Store.Leases.{Leases}
use shellcn.Live.{Outside, InstanceRef}
use shellcn.Auth.Jwt.{Claims, Expected, Jwt}
use shellcn.Auth.Session.{
  SessionManager, given_version, session_issuer, purpose_mfa, is_revoked, get_unrevoked,
  parsed_session, session_of, get, create, session_claims, create_mfa_challenge, mfa_claims,
  challenged, parse_mfa_challenge,
}
use shellcn.Auth.Ticket.{
  TicketScope, Clock, ticket_purpose, ticket_claims, mint, fits_scope, expected, redeem_claims,
  redeem,
}

module _ (jwt : Jwt) where
  pub parse-sign_cases :
      (x : Expected) (c : Claims)
      → (jwt.parse x (jwt.sign c) ≡ none) ⊎ (jwt.parse x (jwt.sign c) ≡ some c)
  parse-sign_cases x c = ground (arith, jwt.parse-sign x c)

  no_csrf :
      (token : String) (c : Claims) (x : Option ℕ) → c.csrf ≡ "" → session_of jwt token c x ≡ none
  unfolding session_of
  no_csrf token c none h = refl
  no_csrf token c (some at) h = ground (arith, string_eq.same_iff c.csrf "")

  no_session :
      (c : Claims) (now : ℕ) (r : SessionManager × Bool)
      → c.csrf ≡ ""
      → (get_unrevoked jwt (jwt.sign c) now r).1 ≡ none
  unfolding get_unrevoked parsed_session
  no_session c now (m, true) h = refl
  no_session c now (m, false) h =
      elim (parse-sign_cases (record { issuer = session_issuer; audience = []; now = now }) c) [
        | inl e ↦ rw e refl
        | inr e ↦ rw e (no_csrf (jwt.sign c) c c.expires_at h)
      ]

  no_challenge :
      (c : Claims) (now : ℕ)
      → c.purpose ≢ purpose_mfa
      → parse_mfa_challenge jwt (jwt.sign c) now ≡ none
  unfolding parse_mfa_challenge challenged
  no_challenge c now h =
      elim (parse-sign_cases (record { issuer = session_issuer; audience = []; now = now }) c) [
        | inl e ↦ rw e refl
        | inr e ↦ rw e (ground (arith, string_eq.same_iff c.purpose purpose_mfa))
      ]

  module _ (o : Outside) where
    no_ticket :
        (c : Claims) (i : InstanceRef) (want : TicketScope) (lease_id : String) (t : Clock)
        (leases : Leases)
        → c.purpose ≢ ticket_purpose
        → redeem jwt o i want (jwt.sign c) lease_id t leases ≡ (leases, false)
    unfolding redeem redeem_claims fits_scope
    no_ticket c i want lease_id t leases h =
        elim (parse-sign_cases (expected jwt o want t.parsed_at) c) [
          | inl e ↦ rw e refl
          | inr e ↦ rw e (ground (arith, string_eq.same_iff c.purpose ticket_purpose))
        ]

    -- At whatever instants they are presented, and under one signing key: a challenge of the second
    -- factor and a ticket are no session, a session and a ticket are no challenge, and a session and
    -- a challenge are no ticket and leave the lease store as it is.
    pub kinds_apart :
        (m m' : SessionManager) (user id csrf lease_id : String) (versions : List ℤ)
        (scope want : TicketScope) (i : InstanceRef) (ttl now later parsed_at : ℕ) (t : Clock)
        (leases : Leases)
        → let session = (create jwt m user versions csrf id now).id in
          let challenge = (create_mfa_challenge jwt user id now).0 in
          let ticket = (mint jwt o ttl scope id now).0 in
          ((get jwt challenge later parsed_at m').1 ≡ none)
          × ((get jwt ticket later parsed_at m').1 ≡ none)
          × (parse_mfa_challenge jwt session later ≡ none)
          × (parse_mfa_challenge jwt ticket later ≡ none)
          × (redeem jwt o i want session lease_id t leases ≡ (leases, false))
          × (redeem jwt o i want challenge lease_id t leases ≡ (leases, false))
    unfolding get create create_mfa_challenge mint session_claims mfa_claims ticket_claims
    kinds_apart m m' user id csrf lease_id versions scope want i ttl now later parsed_at t leases =
        let challenge = mfa_claims jwt user id now in
        let ticket = ticket_claims jwt o scope id now (now + ttl) in
        let session = session_claims jwt user (given_version versions) csrf id now (now + m.ttl) in
        (
          no_session challenge parsed_at (is_revoked (jwt.sign challenge) later m') refl,
          no_session ticket parsed_at (is_revoked (jwt.sign ticket) later m') refl,
          no_challenge session later (ne_of_beq "" purpose_mfa refl),
          no_challenge ticket later (ne_of_beq ticket_purpose purpose_mfa refl),
          no_ticket session i want lease_id t leases (ne_of_beq "" ticket_purpose refl),
          no_ticket challenge i want lease_id t leases (ne_of_beq purpose_mfa ticket_purpose refl),
        )
