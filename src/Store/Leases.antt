-- ===== src/Store/Leases.antt =====
-- internal/store/memory.go, memLiveStateLeaseStore, with internal/store/live_state_lease.go and
-- internal/models/live_state_lease.go. Instants are numbers; `t.Before(u)` is `ltb t u`.
pub mod View
pub mod Hold
pub mod Exclusion
pub mod Tests
use shellcn.Prelude.{
  ℕ, suc, ◌+◌, ◌≡◌, String, Bool, true, false, not, ◌&&◌, ◌||◌, List, [], ◌∷◌, Option, none, some,
  ltb, ◌==◌, string_eq, if◌then◌else◌,
}
use shellcn.Prelude.Map.{Map, lookup, insert, delete, delete_if}
use shellcn.Store.Errors.{Error, conflict, not_found}

pub record LiveStateLease : Type 0 where
  pub key : String
  pub instance_id : String
  pub internal_url : String
  pub internal_urls : String
  pub lease_id : String
  pub expires_at : ℕ
  pub created_at : ℕ
  pub updated_at : ℕ

abbrev pub Leases : Type 0
Leases = Map String LiveStateLease

-- `now.Before(l.ExpiresAt)`
abbrev pub is_live : ℕ → LiveStateLease → Bool
is_live now l = ltb now l.expires_at

pub contains : List String → String → Bool
contains [] u = false
contains (x ∷ xs) u = if x == u then true else contains xs u

-- The URL that a claim keeps: the current one if the next instance still lists it. `decode` is
-- `json.Unmarshal` into a list of strings, `none` its error.
unfoldable pub preferred_internal_url_for_claim :
    (String → Option (List String)) → LiveStateLease → LiveStateLease → String
unfolding contains
preferred_internal_url_for_claim decode current next =
    if current.internal_url == ""
    then next.internal_url
    else if current.internal_url == next.internal_url
    then current.internal_url
    else elim (decode next.internal_urls) [
      | none ↦ next.internal_url
      | some candidates ↦
          if contains candidates current.internal_url
          then current.internal_url
          else next.internal_url
    ]

-- The row that a granted claim writes.
unfoldable pub claimed_row :
    (String → Option (List String)) → Option LiveStateLease → LiveStateLease → ℕ → LiveStateLease
claimed_row decode none lease now = record lease { created_at = now; updated_at = now }
claimed_row decode (some cur) lease now = record lease {
  created_at = cur.created_at;
  internal_url = preferred_internal_url_for_claim decode cur lease;
  updated_at = now;
}

-- Both results carry a lease: the error comes with the holder's.
pub data ClaimResult : Type 0 where
  granted : LiveStateLease → ClaimResult
  held : LiveStateLease → ClaimResult

abbrev pub is_held : Option LiveStateLease → Bool → ℕ → Bool
is_held none replace now = false
is_held (some cur) replace now = is_live now cur && not replace

claim_over :
    (String → Option (List String))
    → Option LiveStateLease
    → LiveStateLease
    → Bool
    → ℕ
    → Leases
    → Leases × ClaimResult
claim_over decode none lease replace now m =
    let next = claimed_row decode none lease now in (insert lease.key next m, granted next)
claim_over decode (some cur) lease replace now m =
    let next = claimed_row decode (some cur) lease now in
    if is_live now cur && not replace
    then (m, held cur)
    else (insert lease.key next m, granted next)

unfoldable pub claim :
    (String → Option (List String)) → LiveStateLease → Bool → ℕ → Leases → Leases × ClaimResult
unfolding claim_over
claim decode lease replace now m = claim_over decode (lookup lease.key m) lease replace now m

pub data GetResult : Type 0 where
  found : LiveStateLease → GetResult
  missing : Error → GetResult

-- A lapsed row is deleted on the way.
get_over : String → Option LiveStateLease → ℕ → Leases → Leases × GetResult
get_over key none now m = (m, missing not_found)
get_over key (some lease) now m =
    if is_live now lease then (m, found lease) else (delete key m, missing not_found)

unfoldable pub get : String → ℕ → Leases → Leases × GetResult
unfolding get_over
get key now m = get_over key (lookup key m) now m

-- The guard of `Renew` and `PreferInternalURL`: the row is the caller's, and live.
abbrev pub owns : String → ℕ → LiveStateLease → Bool
owns lease_id now lease = lease.lease_id == lease_id && is_live now lease

renew_over : String → Option LiveStateLease → String → ℕ → ℕ → Leases → Leases × Bool
renew_over key none lease_id expires_at now m = (m, false)
renew_over key (some lease) lease_id expires_at now m =
    if owns lease_id now lease
    then (insert key (record lease { expires_at = expires_at; updated_at = now }) m, true)
    else (m, false)

unfoldable pub renew : String → String → ℕ → ℕ → Leases → Leases × Bool
unfolding renew_over
renew key lease_id expires_at now m = renew_over key (lookup key m) lease_id expires_at now m

prefer_over : String → Option LiveStateLease → String → String → ℕ → Leases → Leases × Bool
prefer_over key none lease_id url now m = (m, false)
prefer_over key (some lease) lease_id url now m =
    if owns lease_id now lease
    then (insert key (record lease { internal_url = url; updated_at = now }) m, true)
    else (m, false)

unfoldable pub prefer_internal_url : String → String → String → ℕ → Leases → Leases × Bool
unfolding prefer_over
prefer_internal_url key lease_id url now m = prefer_over key (lookup key m) lease_id url now m

release_over : String → Option LiveStateLease → String → Leases → Leases
release_over key none lease_id m = m
release_over key (some lease) lease_id m = if lease.lease_id == lease_id then delete key m else m

unfoldable pub release : String → String → Leases → Leases
unfolding release_over
release key lease_id m = release_over key (lookup key m) lease_id m

-- The rows that `DeleteExpired` counts.
abbrev pub lapsed : ℕ → String → LiveStateLease → Bool
lapsed now key lease = not (is_live now lease)

unfoldable pub count_lapsed : ℕ → Leases → ℕ
count_lapsed now [] = 0
count_lapsed now ((key, lease) ∷ m) = (if is_live now lease then 0 else 1) + count_lapsed now m

unfoldable pub delete_expired : ℕ → Leases → Leases × ℕ
unfolding count_lapsed
delete_expired now m = (delete_if (lapsed now) m, count_lapsed now m)
