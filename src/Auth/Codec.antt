-- ===== src/Auth/Codec.antt =====
-- A JWT package that writes claims as texts, for the tests: its tokens are not secret.
use shellcn.Prelude.{
  ℕ, ◌≡◌, ◌≢◌, refl, ap, String, List, [], ◌∷◌, Option, none, some, arith, if◌then◌else◌,
}
use Prim.Native.String.{[] as end_text, ◌∷◌ as char_then}
use shellcn.Prelude.Int.{ℤ, pos, negsuc}
use shellcn.Prelude.Map.{Map}
use shellcn.Prelude.Marked.{
  marked, unmarked, unmarked-marked, tally_marks, tally, tally-tally_marks,
}
use shellcn.Auth.Jwt.{Claims, Expected, Jwt, valid}

flat : Map String String → List String
flat [] = []
flat ((k, v) ∷ m) = k ∷ v ∷ flat m

pairs : List String → Map String String
pairs [] = []
pairs (k ∷ []) = []
pairs (k ∷ v ∷ l) = (k, v) ∷ pairs l

pairs-flat : (m : Map String String) → pairs (flat m) ≡ m
unfolding pairs flat
pairs-flat [] = refl
pairs-flat ((k, v) ∷ m) = ap (λ l. (k, v) ∷ l) (pairs-flat m)

write_end : Option ℕ → String
write_end none = ""
write_end (some n) = char_then "1" (tally_marks n)

read_end : String → Option ℕ
read_end end_text = none
read_end (char_then c s) = some (tally s)

read_end-write_end : (e : Option ℕ) → read_end (write_end e) ≡ e
unfolding read_end write_end
read_end-write_end none = refl
read_end-write_end (some n) = ap (λ m. some m) (tally-tally_marks n)

-- A sign and a number.
sign_of : ℤ → String
sign_of (pos n) = ""
sign_of (negsuc n) = "-"

size_of : ℤ → ℕ
size_of (pos n) = n
size_of (negsuc n) = n

signed : String → ℕ → ℤ
signed end_text n = pos n
signed (char_then c s) n = negsuc n

signed_lem : (v : ℤ) → signed (sign_of v) (size_of v) ≡ v
unfolding signed sign_of size_of
signed_lem (pos n) = refl
signed_lem (negsuc n) = refl

fields : Claims → List String
fields c =
    c.purpose
    ∷ c.csrf
    ∷ sign_of c.version
    ∷ tally_marks (size_of c.version)
    ∷ marked (flat c.params)
    ∷ c.issuer
    ∷ c.subject
    ∷ c.id
    ∷ marked c.audience
    ∷ tally_marks c.not_before
    ∷ write_end c.expires_at
    ∷ []

read_fields : List String → Option Claims
read_fields
      (purpose ∷ csrf ∷ sign ∷ size ∷ params ∷ issuer ∷ subject ∷ id ∷ audience ∷ start ∷ end
        ∷ []) =
    some (record {
      purpose = purpose;
      csrf = csrf;
      version = signed sign (tally size);
      params = pairs (unmarked params);
      issuer = issuer;
      subject = subject;
      id = id;
      audience = unmarked audience;
      not_before = tally start;
      expires_at = read_end end;
    })
read_fields other = none

read_fields-fields : (c : Claims) → read_fields (fields c) ≡ some c
unfolding read_fields fields
read_fields-fields c =
    rw
      (
        tally-tally_marks (size_of c.version),
        signed_lem c.version,
        unmarked-marked (flat c.params),
        pairs-flat c.params,
        unmarked-marked c.audience,
        tally-tally_marks c.not_before,
        read_end-write_end c.expires_at,
      )
      refl

pub sign_text : Claims → String
sign_text c = marked (fields c)

read_text : String → Option Claims
read_text t = read_fields (unmarked t)

read_text-sign_text : (c : Claims) → read_text (sign_text c) ≡ some c
unfolding read_text sign_text
read_text-sign_text c = rw (unmarked-marked (fields c)) (read_fields-fields c)

read_text-empty : read_text "" ≡ none
unfolding read_text read_fields unmarked
read_text-empty = refl

pub sign_text-ne-empty : (c : Claims) → sign_text c ≢ ""
sign_text-ne-empty c h = cc (ap read_text h, read_text-sign_text c, read_text-empty)

if_valid : Expected → Option Claims → Option Claims
if_valid x none = none
if_valid x (some c) = if valid x c then some c else none

pub parse_text : Expected → String → Option Claims
parse_text x t = if_valid x (read_text t)

pub parse_text-sign_text :
    (x : Expected) (c : Claims) → parse_text x (sign_text c) ≡ (if valid x c then some c else none)
unfolding parse_text if_valid
parse_text-sign_text x c = rw (read_text-sign_text c) refl

if_valid-some : (x : Expected) (o : Option Claims) (c : Claims) → if_valid x o ≡ some c → o ≡ some c
unfolding if_valid
if_valid-some x none c h = absurd (cc)
if_valid-some x (some d) c h = ground (arith, h)

pub parse_text_same :
    (x y : Expected) (t : String) (c d : Claims)
    → parse_text x t ≡ some c
    → parse_text y t ≡ some d
    → c ≡ d
unfolding parse_text
parse_text_same x y t c d p q =
    cc (if_valid-some x (read_text t) c p, if_valid-some y (read_text t) d q)

abbrev pub plain_jwt : Jwt
plain_jwt = record {
  sign = sign_text;
  parse = parse_text;
  numeric_date = λ n. n;
  parse-sign = parse_text-sign_text;
  parse_same = parse_text_same;
  numeric_date-le = λ n. omega arith;
}
