-- ===== src/Store/TablesTests.antt =====
-- Runs of the tables of the in-memory store, and the theorems about them at concrete inputs.
use shellcn.Prelude.{
  ℕ, ◌≡◌, refl, String, true, false, List, [], ◌∷◌, some, string_eq, nat_eq, ne_of_beq,
}
use shellcn.Prelude.Map.{lookup, insert, delete}
use shellcn.Store.Scan.{find_value, create_unless}
use shellcn.Store.Grants.{Grant, creates, deletes, run-get}
use shellcn.Store.Grants
use shellcn.Store.Invitations.{Invitation, Invitations, consumed_once}
use shellcn.Store.Invitations
use shellcn.Store.Enrollments.{
  AgentEnrollment, Enrollments, consumes, sets_token, revoked_stays_out,
}
use shellcn.Store.Enrollments
use shellcn.Store.Audit.{AuditEntry, AuditFilter}

abbrev for_ann : Grant
for_ann = record { id = "g1"; connection_id = "c1"; subject_id = "u1"; access = "view" }

abbrev again : Grant
again = record for_ann { id = "g2"; access = "manage" }

run-get_example :
    Grants.get "c1" "u1" (Grants.run (creates for_ann ∷ creates again ∷ deletes "g9" ∷ []) [])
    ≡ some for_ann
unfolding Grants.run Grants.step Grants.create create_unless find_value lookup insert delete
run-get_example = run-get (creates for_ann ∷ creates again ∷ deletes "g9" ∷ []) "g1" for_ann refl

abbrev offer : Invitation
offer = record {
  id = "i1";
  email = "ann@example.org";
  role = "viewer";
  token_hash = "h1";
  status = "pending";
  invited_by = "u0";
  created_at = 0;
  expires_at = 100;
  accepted_at = 0;
}

abbrev offers : Invitations
offers = ("i1", offer) ∷ []

offer_accepted : (Invitations.consume "i1" 10 offers).1 ≡ true
unfolding Invitations.consume lookup
offer_accepted = refl

consumed_once_example :
    let m' =
      Invitations.run (Invitations.consumes "i1" 20 ∷ []) (Invitations.consume "i1" 10 offers).0 in
    Invitations.consume "i1" 30 m' ≡ (m', false)
consumed_once_example =
    consumed_once "i1" 10 30 (Invitations.consumes "i1" 20 ∷ []) offers offer_accepted (tt, tt)

abbrev joined : AgentEnrollment
joined = record {
  id = "e1";
  connection_id = "c1";
  token_hash = "h1";
  status = "online";
  expires_at = 100;
  created_at = 0;
  updated_at = 0;
}

abbrev joined_too : AgentEnrollment
joined_too = record joined { id = "e2"; token_hash = "h3" }

revoked_stays_out_example :
    let m' =
      Enrollments.run
        (Enrollments.creates joined_too ∷ consumes "e1" 20 ∷ sets_token "e1" "h2" 900 25 ∷ [])
        (Enrollments.update_status "e1" "revoked" 10 (("e1", joined) ∷ [])).0 in
    Enrollments.consume "e1" 30 m' ≡ (m', false)
revoked_stays_out_example =
    revoked_stays_out "e1" "revoked" 10 30
      (Enrollments.creates joined_too ∷ consumes "e1" 20 ∷ sets_token "e1" "h2" 900 25 ∷ [])
      (("e1", joined) ∷ []) (ne_of_beq "revoked" "pending" refl)
      (ne_of_beq "revoked" "offline" refl) (ne_of_beq "revoked" "online" refl)
      (ne_of_beq "e2" "e1" refl, (tt, (tt, tt)))

abbrev entry : String → ℕ → AuditEntry
entry id time = record { id = id; time = time; user_id = "u1"; connection_id = "c1" }

abbrev trail : List AuditEntry
trail = entry "a" 1 ∷ entry "b" 2 ∷ entry "c" 3 ∷ []

abbrev second_newest : AuditFilter
second_newest = record { user_id = "u1"; connection_id = ""; limit = 1; offset = 1 }
