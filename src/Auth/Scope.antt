-- ===== src/Auth/Scope.antt =====
-- Which requests a ticket opens.
use shellcn.Prelude.{
  ℕ, ◌+◌, ◌-◌, ◌≤◌, ◌<◌, ◌≡◌, ◌≢◌, refl, sym, ap, ◌∙◌, inl, inr, String, true, false, [], ◌∷◌,
  Option, none, some, arith, ◌==◌, string_eq, nat_eq, beq_refl,
}
use Prim.Native.String.append
use Prim.Native.String.{◌++◌ as str_append}
use text.Mathlib.TextLemmas.{cons-ne-nil}
use shellcn.Prelude.Int.{pos}
use shellcn.Prelude.Map.{Map, lookup, IsMap}
use shellcn.Store.Leases.{Leases}
use shellcn.Live.{Outside, InstanceRef, claim_exclusive}
use shellcn.Live.Claims.{registry_claim_fresh}
use shellcn.Auth.Jwt.{Claims, Jwt, valid, has}
use shellcn.Auth.Session.{session_issuer}
use shellcn.Auth.Purposes.{parse-sign_cases}
use shellcn.Auth.Ticket.{
  TicketScope, Clock, all_in, same_params, same_audience, ticket_key, fits_scope, expected,
  was_claimed, redeem_claims, redeem, ticket_claims, mint, ticket_purpose,
}

-- Each entry of the first map is one of the second.
abbrev Within : Map String String → Map String String → Type 0
Within [] b = Unit
Within ((k, v) ∷ a) b = (lookup k b ≡ some v) × Within a b

all_in_of : (a b : Map String String) → Within a b → all_in a b ≡ true
all_in_of [] b h = refl
all_in_of ((k, v) ∷ a) b h = ground (arith, h.0, all_in_of a b h.1, string_eq.same_iff v v)

Within-cons :
    (k v : String) (a b : Map String String)
    → lookup k a ≡ none
    → Within a b
    → Within a ((k, v) ∷ b)
unfolding lookup
Within-cons k v [] b n h = tt
Within-cons k v ((j, w) ∷ a) b n h = (
  ground (arith, h.0, string_eq.same_iff j k, string_eq.same_iff k j, n),
  Within-cons k v a b (ground (arith, n)) h.1,
)

Within-refl : (a : Map String String) → IsMap a → Within a a
unfolding lookup
Within-refl [] h = tt
Within-refl ((k, v) ∷ a) h = (rw (beq_refl k) refl, Within-cons k v a a h.0 (Within-refl a h.1))

pub same_params_refl : (a : Map String String) → IsMap a → same_params a a ≡ true
unfolding same_params
same_params_refl a h = ground (arith, all_in_of a a (Within-refl a h))

-- A parameter with an empty value counts as one that is missing.
pub same_params_empty : (x y v : String) → x ≢ y → same_params ((x, "") ∷ []) ((y, v) ∷ []) ≡ true
unfolding same_params lookup
same_params_empty x y v n =
    let q : (y == x) ≡ false = ground (arith, string_eq.same_iff y x) in rw q refl

ticket_key_text : (id : String) → ticket_key id ≢ ""
unfolding ticket_key
ticket_key_text id h =
    cons-ne-nil "t" (str_append "icket:" id) (sym (append.cons "t" "icket:" id) ∙ h)

module _ (jwt : Jwt) (o : Outside) where
  claimed_fresh :
      (i : InstanceRef) (want : TicketScope) (lease_id : String) (t : Clock) (m : Leases)
      (c : Claims) (exp : ℕ)
      → lookup (ticket_key c.id) m ≡ none
      → i.id ≢ ""
      → fits_scope c want ≡ true
      → c.expires_at ≡ some exp
      → t.read_at < exp
      → (redeem_claims jwt o i want lease_id t m (some c)).1 ≡ true
  unfolding redeem_claims was_claimed
  claimed_fresh i want lease_id t m c exp e n f x l =
      let ttl = exp - t.read_at in
      let fresh =
        registry_claim_fresh o (ticket_key c.id) i
          (record { mode = claim_exclusive; ttl = pos ttl }) lease_id t.claimed_at m e
          (ticket_key_text c.id) n in
      ground (arith, f, x, fresh)

  minted-valid :
      (scope : TicketScope) (id : String) (now ttl parsed_at : ℕ)
      → now ≤ parsed_at
      → parsed_at < jwt.numeric_date (now + ttl)
      → valid (expected jwt o scope parsed_at) (ticket_claims jwt o scope id now (now + ttl)) ≡ true
  unfolding valid expected ticket_claims
  minted-valid scope id now ttl parsed_at a b = ground (
    arith,
    string_eq.same_iff session_issuer session_issuer,
    string_eq.same_iff scope.connection_id scope.connection_id,
    jwt.numeric_date-le now,
  )

  minted-fits :
      (scope : TicketScope) (params : Map String String) (id : String) (now ttl : ℕ)
      → same_params scope.params params ≡ true
      → id ≢ ""
      → fits_scope (ticket_claims jwt o scope id now (now + ttl)) (record scope { params = params })
        ≡ true
  unfolding fits_scope ticket_claims same_audience
  minted-fits scope params id now ttl s k = ground (
    arith,
    string_eq.same_iff ticket_purpose ticket_purpose,
    string_eq.same_iff scope.user_id scope.user_id,
    string_eq.same_iff scope.connection_id scope.connection_id,
    string_eq.same_iff scope.route_id scope.route_id,
    string_eq.same_iff id "",
  )

  -- A ticket that was minted for a scope opens a stream of that scope with parameters that
  -- `sameParams` takes for the same, on any instance, from its start until its end in whole
  -- seconds, if its key was not claimed before.
  pub mint-redeem :
      (i : InstanceRef) (scope : TicketScope) (params : Map String String) (ttl now : ℕ)
      (id lease_id : String) (t : Clock) (m : Leases)
      → same_params scope.params params ≡ true
      → lookup (ticket_key id) m ≡ none
      → i.id ≢ ""
      → id ≢ ""
      → (now ≤ t.parsed_at)
        × (t.parsed_at < jwt.numeric_date (now + ttl))
        × (t.read_at < jwt.numeric_date (now + ttl))
      → (redeem jwt o i
          (record scope { params = params })
          (mint jwt o ttl scope id now).0
          lease_id
          t
          m).1
        ≡ true
  unfolding redeem mint
  mint-redeem i scope params ttl now id lease_id t m s e n k l =
      let c = ticket_claims jwt o scope id now (now + ttl) in
      let want = record scope { params = params } in
      let x = expected jwt o want t.parsed_at in
      rw (jwt.parse-sign x c, minted-valid scope id now ttl t.parsed_at l.0 l.1)
        (claimed_fresh i want lease_id t m c (jwt.numeric_date (now + ttl)) e n
          (minted-fits scope params id now ttl s k) refl l.2)

  -- A ticket that was minted with one parameter whose value is empty opens the stream of the same
  -- connection, route and user for any one other parameter, whatever its value.
  pub mint-redeem_other_params :
      (i : InstanceRef) (scope : TicketScope) (x y v : String) (ttl now : ℕ) (id lease_id : String)
      (t : Clock) (m : Leases)
      → x ≢ y
      → lookup (ticket_key id) m ≡ none
      → i.id ≢ ""
      → id ≢ ""
      → (now ≤ t.parsed_at)
        × (t.parsed_at < jwt.numeric_date (now + ttl))
        × (t.read_at < jwt.numeric_date (now + ttl))
      → (redeem jwt o i
          (record scope { params = (y, v) ∷ [] })
          (mint jwt o ttl (record scope { params = (x, "") ∷ [] }) id now).0
          lease_id
          t
          m).1
        ≡ true
  mint-redeem_other_params i scope x y v ttl now id lease_id t m d e n k l =
      mint-redeem i (record scope { params = (x, "") ∷ [] }) ((y, v) ∷ []) ttl now id lease_id t m
        (same_params_empty x y v d) e n k l

  fits-parts :
      (c : Claims) (want : TicketScope)
      → fits_scope c want ≡ true
      → (c.subject ≡ want.user_id)
        × (has c.audience want.connection_id ≡ true)
        × (has c.audience want.route_id ≡ true)
        × (same_params c.params want.params ≡ true)
  unfolding fits_scope same_audience
  fits-parts c want h = (
    ground (arith, string_eq.same_iff c.subject want.user_id),
    ground (arith, h),
    ground (arith, h),
    ground (arith, h),
  )

  scope_of_claims :
      (i : InstanceRef) (want : TicketScope) (lease_id : String) (t : Clock) (m : Leases)
      (c : Claims) (exp : ℕ)
      → c.expires_at ≡ some exp
      → (redeem_claims jwt o i want lease_id t m (some c)).1 ≡ true
      → (fits_scope c want ≡ true) × (t.read_at < exp)
  unfolding redeem_claims
  scope_of_claims i want lease_id t m c exp e h = (ground (arith, h), ground (arith, h, e))

  no_claims :
      (i : InstanceRef) (want : TicketScope) (lease_id : String) (t : Clock) (m : Leases)
      → (redeem_claims jwt o i want lease_id t m none).1 ≢ true
  unfolding redeem_claims
  no_claims i want lease_id t m h = cc

  -- A redemption of a minted ticket that succeeds is by the user it was minted for, before its end,
  -- for a connection and a route among the two that it names, and with parameters that `sameParams`
  -- takes for its own.
  pub redeem-mint :
      (i : InstanceRef) (scope want : TicketScope) (ttl now : ℕ) (id lease_id : String) (t : Clock)
      (m : Leases)
      → (redeem jwt o i want (mint jwt o ttl scope id now).0 lease_id t m).1 ≡ true
      → (scope.user_id ≡ want.user_id)
        × (has (scope.connection_id ∷ scope.route_id ∷ []) want.connection_id ≡ true)
        × (has (scope.connection_id ∷ scope.route_id ∷ []) want.route_id ≡ true)
        × (same_params scope.params want.params ≡ true)
        × (t.read_at < jwt.numeric_date (now + ttl))
  unfolding redeem mint ticket_claims
  redeem-mint i scope want ttl now id lease_id t m h =
      let c = ticket_claims jwt o scope id now (now + ttl) in
      let x = expected jwt o want t.parsed_at in
      let out = λ (p : Option Claims). (redeem_claims jwt o i want lease_id t m p).1 in
      elim (parse-sign_cases jwt x c) [
        | inl e ↦ absurd (no_claims i want lease_id t m (sym (ap out e) ∙ h))
        | inr e ↦
            let (f, l) =
              scope_of_claims i want lease_id t m c (jwt.numeric_date (now + ttl)) refl
                (sym (ap out e) ∙ h) in
            let (a, b, d, p) = fits-parts c want f in (a, b, d, p, l)
      ]
