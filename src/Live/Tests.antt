-- ===== src/Live/Tests.antt =====
-- Runs of the lease registry, and the theorems about it at concrete inputs. A list of texts is
-- coded by `marked`, after a bracket.
use shellcn.Prelude.{
  ◌≡◌, refl, ap, String, List, [], ◌∷◌, Option, none, some, arith, string_eq, nat_eq, ne_of_beq,
}
use Prim.Native.String.{[] as end_text, ◌∷◌ as char_then}
use shellcn.Prelude.Marked.{marked, unmarked, unmarked-marked}
use shellcn.Prelude.Int.{pos}
use shellcn.Prelude.Map.{lookup}
use shellcn.Store.Leases.Hold.{gets, run}
use shellcn.Live.{
  Outside, InstanceRef, ClaimOptions, claim_exclusive, with_defaults,
  new_instance_ref_with_preferred, StoreLease, refused, lease_held, new_instance_ref,
  registry_claim,
}
use shellcn.Live.Claims.{registry_claim_excludes, registry_claim-get}

abbrev pub bracketed : String → Option (List String)
bracketed end_text = none
bracketed (char_then c s) = some (unmarked s)

abbrev pub plain : Outside
plain = record {
  trim_space = λ v. v;
  marshal = λ urls. char_then "[" (marked urls);
  unmarshal = bracketed;
  unmarshal-marshal = λ urls. ap (λ l. some l) (unmarked-marked urls);
  unmarshal-empty = refl;
  trim_space-empty = refl;
  trim_space_twice = λ v. refl;
}

abbrev exclusively : ClaimOptions
exclusively = record { mode = claim_exclusive; ttl = pos 30 }

abbrev ref_a : InstanceRef
ref_a = new_instance_ref plain "a" ("http://10.0.0.1:8081" ∷ [])

abbrev ref_b : InstanceRef
ref_b = new_instance_ref plain "b" []

abbrev first_lease : StoreLease
first_lease = record {
  ref = record { instance_ref = ref_a; key = "agent:c1"; lease_id = "L1"; expires_at = 40 };
  ttl = 30;
}

registry_claim_excludes_example :
    let m' =
      run bracketed
        ((20, gets "agent:c1") ∷ [])
        (registry_claim plain "agent:c1" ref_a exclusively "L1" 10 []).0 in
    (name : String) × (registry_claim plain "agent:c1" ref_b exclusively "L2" 30 m'
      ≡ (m', refused (lease_held name)))
unfolding lookup with_defaults new_instance_ref new_instance_ref_with_preferred
registry_claim_excludes_example =
    registry_claim_excludes plain "agent:c1" ref_a ref_b exclusively exclusively "L1" "L2" 10 30 []
      first_lease ((20, gets "agent:c1") ∷ []) tt
      (registry_claim-get plain "agent:c1" "a" ("http://10.0.0.1:8081" ∷ []) exclusively "L1" 10 20
        [] refl (ne_of_beq "agent:c1" "" refl) (ne_of_beq "a" "" refl) (omega arith)).0
      ((omega arith, tt), tt) (omega arith) (ne_of_beq "b" "" refl)
      (ne_of_beq "exclusive" "replace" refl)
