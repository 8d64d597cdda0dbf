-- ===== src/Auth/Session.antt =====
-- internal/auth/session.go: the session manager. Random tokens are arguments, and so is each
-- reading of the clock. Cookies are not modelled.
use shellcn.Prelude.{
  ℕ, ◌+◌, String, Bool, true, false, not, ◌&&◌, ◌||◌, List, [], ◌∷◌, Option, none, some, ltb, ◌==◌,
  string_eq, if◌then◌else◌,
}
use shellcn.Prelude.Int.{ℤ, pos}
use shellcn.Prelude.Map.{Map, lookup, insert, delete, delete_if}
use shellcn.Auth.Jwt.{Claims, Jwt}

-- `app.SessionIssuer`
abbrev pub session_issuer : String
session_issuer = "shellcn"

abbrev pub purpose_mfa : String
purpose_mfa = "mfa"

-- 5 minutes.
abbrev pub mfa_challenge_ttl : ℕ
mfa_challenge_ttl = 300000000000

pub record Session : Type 0 where
  pub id : String
  pub user_id : String
  pub csrf_token : String
  pub session_version : ℤ
  pub expires_at : ℕ

pub record SessionManager : Type 0 where
  pub ttl : ℕ
  pub revoked : Map String ℕ

-- The optional last argument of `Create`.
abbrev pub given_version : List ℤ → ℤ
given_version [] = pos 0
given_version (version ∷ rest) = version

-- `now.After(exp)`
abbrev pub lapsed : ℕ → String → ℕ → Bool
lapsed now token exp = ltb exp now

unfoldable pub prune_revoked_locked : ℕ → SessionManager → SessionManager
prune_revoked_locked now m = record m { revoked = delete_if (lapsed now) m.revoked }

unfoldable pub is_revoked_over : String → ℕ → SessionManager → Option ℕ → SessionManager × Bool
unfolding prune_revoked_locked
is_revoked_over token now m none = (prune_revoked_locked now m, false)
is_revoked_over token now m (some exp) =
    if ltb exp now then (record m { revoked = delete token m.revoked }, false) else (m, true)

unfoldable pub is_revoked : String → ℕ → SessionManager → SessionManager × Bool
unfolding is_revoked_over
is_revoked token now m = is_revoked_over token now m (lookup token m.revoked)

-- `Destroy` reads the clock twice.
unfoldable pub destroy : String → ℕ → ℕ → SessionManager → SessionManager
unfolding prune_revoked_locked
destroy token now now' m =
    if token == ""
    then m
    else let p = prune_revoked_locked now m in
      record p { revoked = insert token (now' + m.ttl) p.revoked }

-- `ValidateCSRF`, from the header's value.
unfoldable pub validate_csrf : String → Session → Bool
validate_csrf got s = not (got == "") && got == s.csrf_token

module _ (jwt : Jwt) where
  unfoldable pub session_claims : String → ℤ → String → String → ℕ → ℕ → Claims
  session_claims user_id version csrf id now expires_at = record {
    purpose = "";
    csrf = csrf;
    version = version;
    params = [];
    issuer = session_issuer;
    subject = user_id;
    id = id;
    audience = [];
    not_before = jwt.numeric_date now;
    expires_at = some (jwt.numeric_date expires_at);
  }

  unfoldable pub create : SessionManager → String → List ℤ → String → String → ℕ → Session
  unfolding session_claims
  create m user_id versions csrf id now =
      let version = given_version versions in
      record {
        id = jwt.sign (session_claims user_id version csrf id now (now + m.ttl));
        user_id = user_id;
        csrf_token = csrf;
        session_version = version;
        expires_at = now + m.ttl;
      }

  unfoldable pub session_of : String → Claims → Option ℕ → Option Session
  session_of token c none = none
  session_of token c (some expires_at) =
      if c.subject == "" || c.csrf == ""
      then none
      else some (record {
        id = token;
        user_id = c.subject;
        csrf_token = c.csrf;
        session_version = c.version;
        expires_at = expires_at;
      })

  unfoldable pub parsed_session : String → Option Claims → Option Session
  unfolding session_of
  parsed_session token none = none
  parsed_session token (some c) = session_of token c c.expires_at

  unfoldable pub get_unrevoked :
      String → ℕ → SessionManager × Bool → SessionManager × Option Session
  unfolding parsed_session
  get_unrevoked token now (m, true) = (m, none)
  get_unrevoked token now (m, false) = (
    m,
    parsed_session token
        (jwt.parse (record { issuer = session_issuer; audience = []; now = now }) token),
  )

  -- `Get`: `now` is read for the revocation, `parsed_at` by the parser.
  unfoldable pub get : String → ℕ → ℕ → SessionManager → SessionManager × Option Session
  unfolding get_unrevoked is_revoked
  get token now parsed_at m = get_unrevoked token parsed_at (is_revoked token now m)

  unfoldable pub mfa_claims : String → String → ℕ → Claims
  mfa_claims user_id id now = record {
    purpose = purpose_mfa;
    csrf = "";
    version = pos 0;
    params = [];
    issuer = session_issuer;
    subject = user_id;
    id = id;
    audience = [];
    not_before = jwt.numeric_date now;
    expires_at = some (jwt.numeric_date (now + mfa_challenge_ttl));
  }

  unfoldable pub create_mfa_challenge : String → String → ℕ → String × ℕ
  unfolding mfa_claims
  create_mfa_challenge user_id id now =
      (jwt.sign (mfa_claims user_id id now), now + mfa_challenge_ttl)

  unfoldable pub challenged : Option Claims → Option String
  challenged none = none
  challenged (some c) =
      if not (c.purpose == purpose_mfa) || c.subject == "" then none else some c.subject

  unfoldable pub parse_mfa_challenge : String → ℕ → Option String
  unfolding challenged
  parse_mfa_challenge token now =
      challenged (jwt.parse (record { issuer = session_issuer; audience = []; now = now }) token)
