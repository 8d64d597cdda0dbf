-- ===== src/Policy/Decide.antt =====
-- When `Authorize` lets a request through.
use shellcn.Prelude.{
  ℕ, ◌≤◌, ◌≡◌, ◌≢◌, refl, ◌↔◌, ◌⊎◌, inl, inr, String, Bool, true, false, not, ◌&&◌, ◌||◌, List, [],
  ◌∷◌, none, some, arith, ◌==◌, string_eq, if◌then◌else◌, Bool-cases, Option-cases,
}
use shellcn.Policy.{
  Casbin, AccessInput, grant_risk_level, route_risk_level, grant_allows, has_any_role, role_allows,
  authorize,
}

-- The request is on no connection, or on one that the user owns.
abbrev pub ByRole : AccessInput → Type 0
ByRole a = (a.connection_id ≡ "") ⊎ ((a.owner_id ≢ "") × (a.owner_id ≡ a.user.id))

-- The grant's ceiling and the route's level are known, and the level is within the ceiling.
abbrev pub ByGrant : AccessInput → Type 0
ByGrant a =
    (ceiling : ℕ) × (level : ℕ) × (a.has_grant ≡ true)
    × (grant_risk_level a.grant_access ≡ some ceiling)
    × (route_risk_level a.risk ≡ some level)
    × (level ≤ ceiling)

grant_allows_iff :
    (access risk : String)
    → grant_allows access risk ≡ true
    → (ceiling : ℕ) × (level : ℕ) × (grant_risk_level access ≡ some ceiling)
      × (route_risk_level risk ≡ some level)
      × (level ≤ ceiling)
unfolding grant_allows
grant_allows_iff access risk h = elim (Option-cases (grant_risk_level access)) [
  | inl e ↦ absurd (ground (arith, e))
  | inr (c, e) ↦ elim (Option-cases (route_risk_level risk)) [
    | inl f ↦ absurd (ground (arith, e, f))
    | inr (l, f) ↦ (c, l, e, f, ground (arith, e, f))
  ]
]

grant_allows_of :
    (access risk : String) (ceiling level : ℕ)
    → grant_risk_level access ≡ some ceiling
    → route_risk_level risk ≡ some level
    → level ≤ ceiling
    → grant_allows access risk ≡ true
unfolding grant_allows
grant_allows_of access risk ceiling level e f le = rw (e, grant_allows) (rw f (ground arith))

abbrev by_role : AccessInput → Bool
by_role a = a.connection_id == "" || (not (a.owner_id == "") && a.owner_id == a.user.id)

by_role→ByRole : (a : AccessInput) → by_role a ≡ true → ByRole a
by_role→ByRole a h = elim (Bool-cases (a.connection_id == "")) [
  | inl e ↦ inl ((string_eq.same_iff a.connection_id "").0 e)
  | inr e ↦ inr (
    λ p. ground (arith, h, e, (string_eq.same_iff a.owner_id "").1 p),
    (string_eq.same_iff a.owner_id a.user.id).0 (ground (arith, h, e)),
  )
]

ByRole→by_role : (a : AccessInput) → ByRole a → by_role a ≡ true
ByRole→by_role a (inl e) = ground (arith, (string_eq.same_iff a.connection_id "").1 e)
ByRole→by_role a (inr (ne, e)) = elim (Bool-cases (a.owner_id == "")) [
  | inl p ↦ absurd (ne ((string_eq.same_iff a.owner_id "").0 p))
  | inr p ↦ ground (arith, p, (string_eq.same_iff a.owner_id a.user.id).1 e)
]

has_any_role_iff : (roles : List String) → (has_any_role roles ≡ true) ↔ (roles ≢ [])
has_any_role_iff [] = (λ h. absurd (cc), λ h. absurd (h refl))
has_any_role_iff (role ∷ rest) = (λ h e. cc, λ h. refl)

module _ (casbin : Casbin) (ls : casbin.Lines) (a : AccessInput) where
  -- The decision with its two role branches joined.
  passes : Bool
  passes =
      not a.user.disabled
      && (has_any_role a.user.roles
          && (if by_role a
              then role_allows casbin ls a.user.roles a.permission a.risk
              else a.has_grant && grant_allows a.grant_access a.risk))

  passes_iff : (authorize casbin ls a ≡ none) ↔ (passes ≡ true)
  unfolding authorize passes
  passes_iff = (λ h. ground arith, λ h. ground arith)

  abbrev Permitted : Type 0
  Permitted =
      (a.user.disabled ≡ false)
      × (a.user.roles ≢ [])
      × ((ByRole a × (role_allows casbin ls a.user.roles a.permission a.risk ≡ true))
          ⊎ ((¬ ByRole a) × ByGrant a))

  by_branch :
      passes ≡ true
      → (ByRole a × (role_allows casbin ls a.user.roles a.permission a.risk ≡ true))
        ⊎ ((¬ ByRole a) × ByGrant a)
  unfolding passes
  by_branch p = elim (Bool-cases (by_role a)) [
    | inl b ↦ inl (by_role→ByRole a b, ground (arith, p, b))
    | inr b ↦
        let allowed : grant_allows a.grant_access a.risk ≡ true = ground (arith, p, b) in
        let (c, l, e, f, le) = grant_allows_iff a.grant_access a.risk allowed in
        inr (λ r. cc (ByRole→by_role a r), (c, l, ground (arith, p, b), e, f, le))
  ]

  through : passes ≡ true → Permitted
  unfolding passes
  through p =
      (ground (arith, p), (has_any_role_iff a.user.roles).0 (ground (arith, p)), by_branch p)

  passes_of : Permitted → passes ≡ true
  unfolding passes
  passes_of (on, some_role, inl (r, allowed)) =
      ground (arith, (has_any_role_iff a.user.roles).1 some_role, ByRole→by_role a r)
  passes_of (on, some_role, inr (no_role, (c, l, g, e, f, le))) = elim (Bool-cases (by_role a)) [
    | inl b ↦ absurd (no_role (by_role→ByRole a b))
    | inr b ↦ ground (
      arith,
      (has_any_role_iff a.user.roles).1 some_role,
      b,
      grant_allows_of a.grant_access a.risk c l e f le,
    )
  ]

  -- A request goes through exactly when the account is enabled and holds a role, and either it is on
  -- no connection or on the user's own and some role allows it, or it is on another's connection,
  -- the user has a grant, and the route's risk level is within the grant's ceiling. The rules of the
  -- roles play no part in the last case.
  pub authorize_iff : (authorize casbin ls a ≡ none) ↔ (
      (a.user.disabled ≡ false)
      × (a.user.roles ≢ [])
      × ((ByRole a × (role_allows casbin ls a.user.roles a.permission a.risk ≡ true))
          ⊎ ((¬ ByRole a) × ByGrant a)))
  authorize_iff = (λ h. through (passes_iff.0 h), λ h. passes_iff.1 (passes_of h))
