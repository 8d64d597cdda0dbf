-- ===== src/Store/Leases/Tests.antt =====
-- Runs of the lease store, and the theorems about it at concrete inputs.
use shellcn.Prelude.{
  ◌≡◌, refl, String, false, List, [], ◌∷◌, Option, some, arith, ℕ, string_eq, ne_of_beq,
}
use shellcn.Prelude.Map.{lookup, insert}
use shellcn.Store.Errors.{not_found}
use shellcn.Store.Leases.{
  LiveStateLease, Leases, claimed_row, held, claim, get, missing, renew, prefer_internal_url,
  release,
}
use shellcn.Store.Leases.View.{get-view}
use shellcn.Store.Leases.Hold.{Call, gets, renews, claims, run}
use shellcn.Store.Leases.Exclusion.{granted_excludes, takeover_fences}

abbrev decode : String → Option (List String)
decode s = some ("http://10.0.0.2:8081" ∷ [])

abbrev lease_a : LiveStateLease
lease_a = record {
  key = "agent:c1";
  instance_id = "a";
  internal_url = "http://10.0.0.1:8081";
  internal_urls = "";
  lease_id = "L1";
  expires_at = 30;
  created_at = 0;
  updated_at = 0;
}

abbrev lease_b : LiveStateLease
lease_b = record lease_a { instance_id = "b"; lease_id = "L2"; expires_at = 70 }

abbrev table : Leases
table = ("agent:c1", lease_a) ∷ []

get-view_example : (get "agent:c1" 40 table).1 ≡ missing not_found
unfolding lookup
get-view_example = (get-view "agent:c1" 40 50 "agent:c1" table (omega arith)).0

-- Other instances look, renew with an id of their own and try the key.
abbrev calls : List (ℕ × Call)
calls = (5, gets "agent:c1") ∷ (6, renews "agent:c1" "L9" 10) ∷ (7, claims lease_b false) ∷ []

granted_excludes_example :
    let m = run decode calls (claim decode lease_a false 0 []).0 in
    (l : LiveStateLease) × (l.lease_id ≡ "L1") × (claim decode lease_b false 20 m ≡ (m, held l))
unfolding claim lookup claimed_row
granted_excludes_example =
    granted_excludes decode lease_a lease_b false 0 20 [] lease_a calls tt refl
      (
        (omega arith, tt),
        ((omega arith, λ k i. absurd (ne_of_beq "L9" "L1" refl i)), ((omega arith, λ k. refl), tt)),
      )
      refl (omega arith)

lease_c : LiveStateLease
lease_c = claimed_row decode (some lease_a) lease_b 40

takeover_fences_example :
    let m = (claim decode lease_b false 40 table).0 in
    (renew "agent:c1" "L1" 90 41 m ≡ (m, false))
    × (prefer_internal_url "agent:c1" "L1" "http://x" 41 m ≡ (m, false))
    × (release "agent:c1" "L1" m ≡ m)
unfolding claim lookup insert lease_c
takeover_fences_example =
    takeover_fences decode lease_b false 40 41 90 "L1" "http://x" table lease_c refl
      (ne_of_beq "L2" "L1" refl)
