-- ===== src/Policy/Roles.antt =====
-- What the role rules allow: the built-in ones, and those loaded from the store on top.
use shellcn.Prelude.{
  ◌≡◌, refl, ◌∙◌, String, Bool, true, false, ◌&&◌, ◌||◌, List, [], ◌∷◌, none, arith, ◌==◌,
  string_eq,
}
use shellcn.Policy.{
  role_admin, role_operator, role_viewer, risk_safe, risk_write, risk_destructive, risk_privileged,
  Rule, matches, Casbin, default_policies, PolicyRule, or_any, AccessInput, add_policies, new,
  add_role_permission_policy, load_store_policies, role_allows, authorize,
}

abbrev any_matches : Rule → List Rule → Bool
any_matches r [] = false
any_matches r (p ∷ rest) = matches r p || any_matches r rest

abbrev row_rule : PolicyRule → Rule
row_rule row = record { sub = row.role; obj = or_any row.permission; act = row.risk }

abbrev pub any_row : Rule → List PolicyRule → Bool
any_row r [] = false
any_row r (row ∷ rows) = matches r (row_rule row) || any_row r rows

==_comm : (x y : String) → (x == y) ≡ (y == x)
==_comm x y = ground (arith, string_eq.same_iff x y, string_eq.same_iff y x)

or_false : (b : Bool) → (b || false) ≡ b
or_false b = ground arith

-- The lines of `default_policies`, read off.
default_lem :
    (role permission risk : String)
    → (any_matches (record { sub = role; obj = permission; act = risk }) default_policies || false)
      ≡ (role == role_admin
          || ((role == role_operator
                && (risk == risk_safe
                    || (risk == risk_write
                        || (risk == risk_destructive || risk == risk_privileged))))
              || (role == role_viewer && risk == risk_safe)))
unfolding default_policies matches
default_lem role permission risk = ground (
  arith,
  ==_comm role role_admin,
  ==_comm role role_operator,
  ==_comm role role_viewer,
  ==_comm risk risk_safe,
  ==_comm risk risk_write,
  ==_comm risk risk_destructive,
  ==_comm risk risk_privileged,
)

module _ (casbin : Casbin) where
  enforce-add_policies :
      (ps : List Rule) (r : Rule) (ls : casbin.Lines)
      → casbin.enforce (add_policies casbin ps ls) r ≡ (any_matches r ps || casbin.enforce ls r)
  unfolding add_policies
  enforce-add_policies [] r ls = refl
  enforce-add_policies (p ∷ rest) r ls = ground (
    arith,
    enforce-add_policies rest r (casbin.add_policy p ls),
    casbin.enforce-add_policy p r ls,
  )

  pub enforce-load :
      (rows : List PolicyRule) (r : Rule) (ls : casbin.Lines)
      → casbin.enforce (load_store_policies casbin rows ls) r
        ≡ (any_row r rows || casbin.enforce ls r)
  unfolding load_store_policies add_role_permission_policy
  enforce-load [] r ls = refl
  enforce-load (row ∷ rows) r ls = ground (
    arith,
    enforce-load rows r (casbin.add_policy (row_rule row) ls),
    casbin.enforce-add_policy (row_rule row) r ls,
  )

  enforce-new : (r : Rule) → casbin.enforce (new casbin) r ≡ any_matches r default_policies
  unfolding new
  enforce-new r =
      enforce-add_policies default_policies r casbin.no_lines
      ∙ rw (casbin.enforce-no_lines r) (or_false (any_matches r default_policies))

  -- The built-in rules: an admin may do everything, an operator every known risk level, a viewer
  -- what is safe, on every permission; no other role may do anything.
  pub role_allows-new :
      (role permission risk : String)
      → role_allows casbin (new casbin) (role ∷ []) permission risk ≡ (
          role == role_admin
          || ((role == role_operator
                && (risk == risk_safe
                    || (risk == risk_write
                        || (risk == risk_destructive || risk == risk_privileged))))
              || (role == role_viewer && risk == risk_safe)))
  unfolding role_allows
  role_allows-new role permission risk =
      rw (enforce-new (record { sub = role; obj = or_any permission; act = risk }), role_allows)
        (default_lem role (or_any permission) risk)

  role_allows-load :
      (rows : List PolicyRule) (ls : casbin.Lines) (roles : List String) (permission risk : String)
      → role_allows casbin ls roles permission risk ≡ true
      → role_allows casbin (load_store_policies casbin rows ls) roles permission risk ≡ true
  unfolding role_allows
  role_allows-load rows ls [] permission risk h = h
  role_allows-load rows ls (role ∷ rest) permission risk h = ground (
    arith,
    enforce-load rows (record { sub = role; obj = or_any permission; act = risk }) ls,
    role_allows-load rows ls rest permission risk,
  )

  -- Rules from the store only add: what was let through before stays let through, and one role is
  -- allowed a request exactly when it was before or a loaded row matches it.
  pub load_additive :
      (rows : List PolicyRule) (ls : casbin.Lines) (a : AccessInput) (role : String)
      → ((authorize casbin ls a ≡ none)
          → authorize casbin (load_store_policies casbin rows ls) a ≡ none)
        × (role_allows casbin (load_store_policies casbin rows ls) (role ∷ []) a.permission a.risk
            ≡ (any_row (record { sub = role; obj = or_any a.permission; act = a.risk }) rows
                || role_allows casbin ls (role ∷ []) a.permission a.risk))
  unfolding authorize role_allows
  load_additive rows ls a role = (
    λ h. ground (arith, h, role_allows-load rows ls a.user.roles a.permission a.risk),
    ground (
      arith,
      enforce-load rows (record { sub = role; obj = or_any a.permission; act = a.risk }) ls,
    ),
  )
