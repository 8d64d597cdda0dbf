-- ===== src/Auth/Jwt.antt =====
-- What internal/auth uses of the JWT package, for one signing key: tokens are signed with HS256 and
-- parsed with the issuer, and for tickets the audience, that is asked for. Instants are numbers.
use shellcn.Prelude.{
  ℕ, ◌≤◌, ◌≡◌, String, Bool, true, false, ◌&&◌, ◌||◌, List, [], ◌∷◌, Option, none, some, ltb, leb,
  ◌==◌, string_eq, if◌then◌else◌,
}
use shellcn.Prelude.Int.{ℤ}
use shellcn.Prelude.Map.{Map}

-- The JSON object of a token. A field that a kind of token does not have reads as its zero value.
pub record Claims : Type 0 where
  pub purpose : String
  pub csrf : String
  pub version : ℤ
  pub params : Map String String
  pub issuer : String
  pub subject : String
  pub id : String
  pub audience : List String
  pub not_before : ℕ
  pub expires_at : Option ℕ

pub record Expected : Type 0 where
  pub issuer : String
  pub audience : List String
  pub now : ℕ

abbrev pub has : List String → String → Bool
has [] v = false
has (w ∷ ws) v = w == v || has ws v

abbrev pub has_some : List String → List String → Bool
has_some got [] = false
has_some got (v ∷ want) = has got v || has_some got want

abbrev pub audience_fits : List String → List String → Bool
audience_fits got [] = true
audience_fits got (v ∷ want) = has_some got (v ∷ want)

abbrev pub not_expired : Option ℕ → ℕ → Bool
not_expired none now = true
not_expired (some at) now = ltb now at

-- The documented validation: the issuer, one of the audiences, and the times, with no leeway.
unfoldable pub valid : Expected → Claims → Bool
valid x c =
    c.issuer == x.issuer
    && (audience_fits c.audience x.audience
        && (leb c.not_before x.now && not_expired c.expires_at x.now))

-- A token that was signed parses to its claims exactly when these are valid, and whatever parses
-- does so always to the same claims. Dates are cut to whole seconds.
pub record Jwt : Type 1 where
  pub sign : Claims → String
  pub parse : Expected → String → Option Claims
  pub numeric_date : ℕ → ℕ
  pub parse-sign :
      (x : Expected) (c : Claims) → parse x (sign c) ≡ (if valid x c then some c else none)
  pub parse_same :
      (x y : Expected) (t : String) (c d : Claims) → parse x t ≡ some c → parse y t ≡ some d → c ≡ d
  pub numeric_date-le : (n : ℕ) → numeric_date n ≤ n
