-- ===== src/Auth/Ticket.antt =====
-- internal/auth/ticket.go: tickets that name one stream and are redeemed once, by a lease. URLs are
-- parsed by a parameter.
use shellcn.Prelude.{
  ℕ, ◌+◌, ◌-◌, String, Bool, true, false, not, ◌&&◌, ◌||◌, List, [], ◌∷◌, Option, none, some, leb,
  ◌==◌, string_eq, nat_eq, if◌then◌else◌, length,
}
use Prim.Native.String.{◌++◌ as str_append}
use shellcn.Prelude.Int.{pos}
use shellcn.Prelude.Map.{Map, lookup}
use shellcn.Store.Leases.{Leases}
use shellcn.Live.{Outside, InstanceRef, claim_exclusive, Claimed, lease, refused, registry_claim}
use shellcn.Auth.Jwt.{Claims, Expected, Jwt, has}
use shellcn.Auth.Session.{session_issuer}

abbrev pub ticket_purpose : String
ticket_purpose = "ws_ticket"

pub record TicketScope : Type 0 where
  pub connection_id : String
  pub route_id : String
  pub params : Map String String
  pub user_id : String

abbrev pub or_empty : Option String → String
or_empty none = ""
or_empty (some v) = v

-- `b[k] != v` for some entry of the first map; a missing key reads as the empty text.
abbrev pub all_in : Map String String → Map String String → Bool
all_in [] b = true
all_in ((k, v) ∷ a) b = or_empty (lookup k b) == v && all_in a b

unfoldable pub same_params : Map String String → Map String String → Bool
same_params a b = length a == length b && all_in a b

abbrev pub has_all : List String → List String → Bool
has_all got [] = true
has_all got (v ∷ want) = has got v && has_all got want

unfoldable pub same_audience : List String → List String → Bool
same_audience got want = length got == length want && has_all got want

abbrev pub is_among : String → List String → Bool
is_among host [] = false
is_among host (a ∷ allowed) = host == a || is_among host allowed

-- `CheckWSOrigin`, from the headers `Origin` and `Host`. `host_of` is `url.Parse`, `none` its error.
unfoldable pub check_ws_origin : (String → Option String) → String → String → List String → Bool
check_ws_origin host_of origin host allowed =
    if origin == ""
    then false
    else elim (host_of origin) [ none ↦ false | some h ↦ h == host || is_among h allowed ]

unfoldable pub ticket_key : String → String
ticket_key id = str_append "ticket:" id

-- What a redemption does between reading the clock and asking for the lease.
abbrev pub remaining : Option ℕ → ℕ → ℕ
remaining none now = 0
remaining (some at) now = at - now

-- The conditions on the claims, each of which fails the ticket.
unfoldable pub fits_scope : Claims → TicketScope → Bool
unfolding same_audience same_params
fits_scope c want =
    c.purpose == ticket_purpose
    && (c.subject == want.user_id
        && (not (c.id == "")
            && (elim c.expires_at [ none ↦ false | some at ↦ true ]
                && (same_audience c.audience (want.connection_id ∷ want.route_id ∷ [])
                    && same_params c.params want.params))))

-- The instants at which a redemption parses, reads the remaining lifetime, and claims.
pub record Clock : Type 0 where
  pub parsed_at : ℕ
  pub read_at : ℕ
  pub claimed_at : ℕ

module _ (jwt : Jwt) (o : Outside) where
  unfoldable pub ticket_claims : TicketScope → String → ℕ → ℕ → Claims
  ticket_claims scope id now expires_at = record {
    purpose = ticket_purpose;
    csrf = "";
    version = pos 0;
    params = scope.params;
    issuer = session_issuer;
    subject = scope.user_id;
    id = id;
    audience = scope.connection_id ∷ scope.route_id ∷ [];
    not_before = jwt.numeric_date now;
    expires_at = some (jwt.numeric_date expires_at);
  }

  -- `Mint`; `id` is the random token id.
  unfoldable pub mint : ℕ → TicketScope → String → ℕ → String × ℕ
  unfolding ticket_claims
  mint ttl scope id now = (jwt.sign (ticket_claims scope id now (now + ttl)), now + ttl)

  unfoldable pub expected : TicketScope → ℕ → Expected
  expected want now = record {
    issuer = session_issuer;
    audience = want.connection_id ∷ want.route_id ∷ [];
    now = now;
  }

  unfoldable pub was_claimed : Leases × Claimed → Leases × Bool
  was_claimed (m, lease l) = (m, true)
  was_claimed (m, refused x) = (m, false)

  unfoldable pub redeem_claims :
      InstanceRef → TicketScope → String → Clock → Leases → Option Claims → Leases × Bool
  unfolding was_claimed fits_scope ticket_key
  redeem_claims instance_ref want lease_id t m none = (m, false)
  redeem_claims instance_ref want lease_id t m (some c) =
      let ttl = remaining c.expires_at t.read_at in
      if not (fits_scope c want)
      then (m, false)
      else if leb ttl 0
      then (m, false)
      else was_claimed (
          registry_claim o (ticket_key c.id) instance_ref
            (record { mode = claim_exclusive; ttl = pos ttl }) lease_id t.claimed_at m)

  -- `Redeem`: whether it gives no error. The release by timer once the lifetime is over is a later
  -- call of the store.
  unfoldable pub redeem :
      InstanceRef → TicketScope → String → String → Clock → Leases → Leases × Bool
  unfolding redeem_claims expected
  redeem instance_ref want token lease_id t m =
      redeem_claims instance_ref want lease_id t m (jwt.parse (expected want t.parsed_at) token)
