-- ===== src/Live.antt =====
-- internal/livelease/store_registry.go and ownership.go: the registry of live leases over the lease
-- store. `strings.TrimSpace` and the JSON coding of a list of strings are parameters, as is the
-- instance's id for a lease, which the code draws at random. The discovery of addresses is not
-- modelled, nor `StartedAt`, which only logs read.
pub mod Ownership
pub mod Claims
pub mod Tests
use shellcn.Prelude.{
  ℕ, ◌+◌, ◌≡◌, String, Bool, true, false, not, ◌&&◌, List, [], ◌∷◌, Option, none, some, map, ◌==◌,
  string_eq, if◌then◌else◌,
}
use Prim.Native.String.{◌++◌ as str_append}
use shellcn.Prelude.Int.{ℤ, pos, negsuc, ltb_ℤ, pos_part}
use shellcn.Prelude.Map.{lookup}
use shellcn.Prelude.Distinct.{first_ones, NoRepeats, NoneIs}
use shellcn.Store.Errors.{Error}
use shellcn.Store.Leases.{
  LiveStateLease, Leases, ClaimResult, granted, held, claim, GetResult, found, missing, get, renew,
  prefer_internal_url, release,
}

abbrev pub is_blank : String → Bool
is_blank v = v == ""

-- What the registry uses of other packages: decoding gives back the list that was encoded, and
-- the empty text is no code; trimming does not change the empty text or one that was trimmed.
pub record Outside : Type 0 where
  pub trim_space : String → String
  pub marshal : List String → String
  pub unmarshal : String → Option (List String)
  pub unmarshal-marshal : (urls : List String) → unmarshal (marshal urls) ≡ some urls
  pub unmarshal-empty : unmarshal "" ≡ none
  pub trim_space-empty : trim_space "" ≡ ""
  pub trim_space_twice : (v : String) → trim_space (trim_space v) ≡ trim_space v

pub record InstanceRef : Type 0 where
  pub id : String
  pub internal_url : String
  pub candidates : List String

pub record LeaseRef : Type 0 where
  pub instance_ref : InstanceRef
  pub key : String
  pub lease_id : String
  pub expires_at : ℕ

pub record ClaimOptions : Type 0 where
  pub mode : String
  pub ttl : ℤ

abbrev pub claim_exclusive : String
claim_exclusive = "exclusive"

abbrev pub claim_replace : String
claim_replace = "replace"

-- 30 seconds.
abbrev pub default_ttl : ℤ
default_ttl = pos 30000000000

unfoldable pub with_defaults : ClaimOptions → ClaimOptions
with_defaults o = record {
  mode = if o.mode == "" then claim_exclusive else o.mode;
  ttl = if ltb_ℤ (pos 0) o.ttl then o.ttl else default_ttl;
}

unfoldable pub agent_lease_key : String → String
agent_lease_key connection_id = str_append "agent:" connection_id

unfoldable pub session_lease_key : String → String → String
session_lease_key connection_id actor_scope =
    str_append "session:" (str_append connection_id (str_append ":" actor_scope))

unfoldable pub is_local : LeaseRef → InstanceRef → Bool
is_local r i = not (r.instance_ref.id == "") && r.instance_ref.id == i.id

abbrev pub first_or : String → List String → String
first_or url [] = url
first_or url (first ∷ rest) = first

pub data Refusal : Type 0 where
  no_key no_instance expired : Refusal
  lease_held : String → Refusal
  store_error : Error → Refusal

-- The handle that `Claim` gives its caller: the `storeLease`.
pub record StoreLease : Type 0 where
  pub ref : LeaseRef
  pub ttl : ℕ

pub data Claimed : Type 0 where
  lease : StoreLease → Claimed
  refused : Refusal → Claimed

module _ (o : Outside) where
  unfoldable pub unique_non_empty : List String → List String
  unfolding first_ones
  unique_non_empty values = first_ones is_blank [] (map o.trim_space values)

  unfoldable pub new_instance_ref_with_preferred : String → String → List String → InstanceRef
  unfolding unique_non_empty
  new_instance_ref_with_preferred id preferred internal_urls =
      let urls = unique_non_empty (preferred ∷ internal_urls) in
      record { id = id; internal_url = first_or preferred urls; candidates = urls }

  unfoldable pub new_instance_ref : String → List String → InstanceRef
  unfolding new_instance_ref_with_preferred
  new_instance_ref id internal_urls = new_instance_ref_with_preferred id "" internal_urls

  unfoldable pub marshal_some : List String → String
  marshal_some [] = ""
  marshal_some (url ∷ urls) = o.marshal (url ∷ urls)

  unfoldable pub encode_internal_url_candidates : List String → String
  unfolding unique_non_empty marshal_some
  encode_internal_url_candidates urls = marshal_some (unique_non_empty urls)

  unfoldable pub unmarshalled : Option (List String) → List String
  unfolding unique_non_empty
  unmarshalled none = []
  unmarshalled (some urls) = unique_non_empty urls

  unfoldable pub decode_internal_url_candidates : String → List String
  unfolding unmarshalled
  decode_internal_url_candidates raw = unmarshalled (o.unmarshal raw)

  unfoldable pub lease_ref_from_model : LiveStateLease → LeaseRef
  unfolding new_instance_ref_with_preferred decode_internal_url_candidates
  lease_ref_from_model l = record {
    instance_ref =
        new_instance_ref_with_preferred l.instance_id l.internal_url
          (decode_internal_url_candidates l.internal_urls);
    key = l.key;
    lease_id = l.lease_id;
    expires_at = l.expires_at;
  }

  -- The row that `Claim` asks the store for. The store sets its creation and update.
  unfoldable pub wanted_row : String → InstanceRef → String → ℕ → ℕ → LiveStateLease
  unfolding encode_internal_url_candidates
  wanted_row key instance_ref lease_id ttl now = record {
    key = key;
    instance_id = instance_ref.id;
    internal_url = instance_ref.internal_url;
    internal_urls = encode_internal_url_candidates instance_ref.candidates;
    lease_id = lease_id;
    expires_at = now + ttl;
    created_at = 0;
    updated_at = 0;
  }

  unfoldable pub claimed : ℕ → Leases × ClaimResult → Leases × Claimed
  unfolding lease_ref_from_model
  claimed ttl (m, granted row) = (m, lease (record { ref = lease_ref_from_model row; ttl = ttl }))
  claimed ttl (m, held row) = (m, refused (lease_held row.instance_id))

  -- `Claim` of a registry that has a store; `lease_id` is the random id, and `now` the registry's
  -- clock. The error for a registry without a store is not modelled.
  unfoldable pub registry_claim :
      String → InstanceRef → ClaimOptions → String → ℕ → Leases → Leases × Claimed
  unfolding claimed wanted_row with_defaults
  registry_claim key instance_ref opts lease_id now m =
      let opts' = with_defaults opts in
      let ttl = pos_part opts'.ttl in
      if key == ""
      then (m, refused no_key)
      else if instance_ref.id == ""
      then (m, refused no_instance)
      else claimed ttl (
          claim o.unmarshal (wanted_row key instance_ref lease_id ttl now)
            (opts'.mode == claim_replace) now m)

  unfoldable pub got : Leases × GetResult → Leases × Option LeaseRef
  unfolding lease_ref_from_model
  got (m, found l) = (m, some (lease_ref_from_model l))
  got (m, missing e) = (m, none)

  unfoldable pub registry_get : String → ℕ → Leases → Leases × Option LeaseRef
  unfolding got
  registry_get key now m = got (get key now m)

  -- `PreferInternalURL`
  unfoldable pub registry_prefer : LeaseRef → String → ℕ → Leases → Leases
  registry_prefer ref internal_url now m =
      if ref.key == ""
      then m
      else if ref.lease_id == ""
      then m
      else if internal_url == ""
      then m
      else (prefer_internal_url ref.key ref.lease_id internal_url now m).0

renewed : StoreLease → ℕ → Leases × Bool → Leases × (StoreLease × Option Refusal)
renewed l expires_at (m, true) =
    let r = l.ref in (m, (record l { ref = record r { expires_at = expires_at } }, none))
renewed l expires_at (m, false) = (m, (l, some expired))

-- `Renew` of the handle: the new handle, and the error.
unfoldable pub lease_renew : StoreLease → ℕ → Leases → Leases × (StoreLease × Option Refusal)
unfolding renewed
lease_renew l now m = renewed l (now + l.ttl) (renew l.ref.key l.ref.lease_id (now + l.ttl) now m)

-- `Release` of the handle.
unfoldable pub lease_release : StoreLease → Leases → Leases
lease_release l m = release l.ref.key l.ref.lease_id m
