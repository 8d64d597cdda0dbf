-- ===== src/Policy/Tests.antt =====
-- A Casbin of lists of lines, and the theorems about the policy at concrete inputs.
use shellcn.Prelude.{
  ◌≡◌, refl, inl, inr, Bool, true, false, ◌||◌, List, [], ◌∷◌, none, ne_of_beq, string_eq, arith,
}
use shellcn.Policy.{
  Rule, matches, Casbin, PolicyRule, User, AccessInput, new, authorize, grant_risk_level,
  route_risk_level, role_viewer, risk_write,
}
use shellcn.Policy.Decide.{ByRole, authorize_iff}

abbrev enforce_lines : List Rule → Rule → Bool
enforce_lines [] r = false
enforce_lines (p ∷ rest) r = matches r p || enforce_lines rest r

abbrev listed : Casbin
listed = record {
  Lines = List Rule;
  no_lines = [];
  add_policy = λ p ls. p ∷ ls;
  enforce = enforce_lines;
  enforce-no_lines = λ r. refl;
  enforce-add_policy = λ p r ls. refl;
}

abbrev ann : User
ann = record { id = "u1"; roles = role_viewer ∷ []; disabled = false }

-- Ann opens a connection of another user, on which she may manage.
abbrev shared : AccessInput
shared = record {
  user = ann;
  permission = "docker.restart";
  risk = risk_write;
  connection_id = "c1";
  owner_id = "u2";
  has_grant = true;
  grant_access = "manage";
}

abbrev shared-not-ByRole : ¬ ByRole shared
shared-not-ByRole (inl e) = ne_of_beq "c1" "" refl e
shared-not-ByRole (inr (n, e)) = ne_of_beq "u2" "u1" refl e

authorize_iff_example : authorize listed (new listed) shared ≡ none
unfolding grant_risk_level route_risk_level
authorize_iff_example =
    (authorize_iff listed (new listed) shared).1
      (refl, λ e. cc, inr (shared-not-ByRole, (3, 2, refl, refl, refl, omega arith)))

abbrev row : PolicyRule
row = record { id = "p1"; role = role_viewer; permission = "docker.restart"; risk = risk_write }
