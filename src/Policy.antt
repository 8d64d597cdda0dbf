-- ===== src/Policy.antt =====
-- internal/policy/policy.go: role and risk rules, and the grants of shared connections. Roles,
-- permissions, risks and accesses are Go strings. Casbin is a parameter: a store of rules with
-- `AddPolicy` and `Enforce`, which its in-memory form never fails.
pub mod Decide
pub mod Roles
pub mod Tests
use shellcn.Prelude.{
  ℕ, ◌≤◌, ◌≡◌, String, Bool, true, false, not, ◌&&◌, ◌||◌, List, [], ◌∷◌, Option, none, some, leb,
  ◌==◌, string_eq, if◌then◌else◌,
}

-- internal/models/user.go and sdk/plugin/route.go.
abbrev pub role_admin : String
role_admin = "admin"

abbrev pub role_operator : String
role_operator = "operator"

abbrev pub role_viewer : String
role_viewer = "viewer"

abbrev pub risk_safe : String
risk_safe = "safe"

abbrev pub risk_write : String
risk_write = "write"

abbrev pub risk_destructive : String
risk_destructive = "destructive"

abbrev pub risk_privileged : String
risk_privileged = "privileged"

-- A policy line or a request: `sub, obj, act`.
pub record Rule : Type 0 where
  pub sub : String
  pub obj : String
  pub act : String

-- The matcher of `rbacModel`.
unfoldable pub matches : Rule → Rule → Bool
matches r p =
    r.sub == p.sub && ((p.obj == "*" || p.obj == r.obj) && (p.act == "*" || p.act == r.act))

-- Casbin under `rbacModel`: a request is allowed if some line matches it.
pub record Casbin : Type 1 where
  pub Lines : Type 0
  pub no_lines : Lines
  pub add_policy : Rule → Lines → Lines
  pub enforce : Lines → Rule → Bool
  pub enforce-no_lines : (r : Rule) → enforce no_lines r ≡ false
  pub enforce-add_policy :
      (p r : Rule) (ls : Lines) → enforce (add_policy p ls) r ≡ (matches r p || enforce ls r)

unfoldable pub default_policies : List Rule
default_policies =
    record { sub = role_admin; obj = "*"; act = "*" }
    ∷ record { sub = role_operator; obj = "*"; act = risk_safe }
    ∷ record { sub = role_operator; obj = "*"; act = risk_write }
    ∷ record { sub = role_operator; obj = "*"; act = risk_destructive }
    ∷ record { sub = role_operator; obj = "*"; act = risk_privileged }
    ∷ record { sub = role_viewer; obj = "*"; act = risk_safe }
    ∷ []

-- A row of the policy store: internal/models/policy.go.
pub record PolicyRule : Type 0 where
  pub id : String
  pub role : String
  pub permission : String
  pub risk : String

abbrev pub or_any : String → String
or_any permission = if permission == "" then "*" else permission

pub record User : Type 0 where
  pub id : String
  pub roles : List String
  pub disabled : Bool

pub record AccessInput : Type 0 where
  pub user : User
  pub permission : String
  pub risk : String
  pub connection_id : String
  pub owner_id : String
  pub has_grant : Bool
  pub grant_access : String

-- The error of a refusal, by its message.
pub data Denial : Type 0 where
  account_disabled role_may_not no_access grant_may_not : Denial

unfoldable pub grant_risk_level : String → Option ℕ
grant_risk_level access =
    if access == "view"
    then some 1
    else if access == "manage"
    then some 3
    else if access == "privileged"
    then some 4
    else none

unfoldable pub route_risk_level : String → Option ℕ
route_risk_level risk =
    if risk == risk_safe
    then some 1
    else if risk == risk_write
    then some 2
    else if risk == risk_destructive
    then some 3
    else if risk == risk_privileged
    then some 4
    else none

abbrev pub level_under : Option ℕ → Option ℕ → Bool
level_under none level = false
level_under (some ceiling) none = false
level_under (some ceiling) (some level) = leb level ceiling

unfoldable pub grant_allows : String → String → Bool
grant_allows access risk = level_under (grant_risk_level access) (route_risk_level risk)

abbrev pub has_any_role : List String → Bool
has_any_role [] = false
has_any_role (role ∷ rest) = true

module _ (casbin : Casbin) where
  open casbin use {Lines, no_lines, add_policy, enforce}

  unfoldable pub add_policies : List Rule → Lines → Lines
  add_policies [] ls = ls
  add_policies (p ∷ rest) ls = add_policies rest (add_policy p ls)

  unfoldable pub new : Lines
  unfolding add_policies default_policies
  new = add_policies default_policies no_lines

  unfoldable pub add_role_permission_policy : String → String → String → Lines → Lines
  add_role_permission_policy role permission risk ls =
      add_policy (record { sub = role; obj = or_any permission; act = risk }) ls

  unfoldable pub add_role_policy : String → String → Lines → Lines
  unfolding add_role_permission_policy
  add_role_policy role risk ls = add_role_permission_policy role "*" risk ls

  unfoldable pub load_store_policies : List PolicyRule → Lines → Lines
  load_store_policies [] ls = ls
  load_store_policies (row ∷ rows) ls =
      load_store_policies rows (add_role_permission_policy row.role row.permission row.risk ls)

  unfoldable pub role_allows : Lines → List String → String → String → Bool
  role_allows ls [] permission risk = false
  role_allows ls (role ∷ rest) permission risk =
      enforce ls (record { sub = role; obj = or_any permission; act = risk })
      || role_allows ls rest permission risk

  -- `none` is a nil error.
  unfoldable pub authorize : Lines → AccessInput → Option Denial
  unfolding role_allows
  authorize ls a =
      let by_role = role_allows ls a.user.roles a.permission a.risk in
      if a.user.disabled
      then some account_disabled
      else if not (has_any_role a.user.roles)
      then some role_may_not
      else if a.connection_id == ""
      then (if not by_role then some role_may_not else none)
      else if not (a.owner_id == "") && a.owner_id == a.user.id
      then (if not by_role then some role_may_not else none)
      else if not a.has_grant
      then some no_access
      else if not (grant_allows a.grant_access a.risk)
      then some grant_may_not
      else none
