-- ===== src/Auth/Revocation.antt =====
-- A session that was destroyed stays refused: while its revocation is kept, by that, and then
-- because the token has lapsed.
use shellcn.Prelude.{
  ℕ, ◌+◌, ◌≤◌, ◌≡◌, ◌≢◌, refl, ap, inl, inr, String, Bool, true, false, List, [], ◌∷◌, Option, none,
  some, arith, ltb, ◌==◌, string_eq, Bool-cases, Option-cases, All, beq_refl, if_elim,
}
use shellcn.Prelude.Int.{ℤ}
use shellcn.Prelude.Map.{
  lookup, insert, delete, lookup-insert, lookup-delete, lookup-delete_if, IsMap, insert-IsMap,
  delete-IsMap, delete_if-IsMap,
}
use shellcn.Auth.Jwt.{Claims, Expected, Jwt, valid}
use shellcn.Auth.Session.{
  SessionManager, lapsed, prune_revoked_locked, is_revoked, is_revoked_over, destroy, get,
  get_unrevoked, parsed_session, create, session_claims, session_issuer, given_version,
}

-- A request to the manager, at the instants at which it reads the clock.
pub data Request : Type 0 where
  asks : String → ℕ → ℕ → Request
  signs_out : String → ℕ → ℕ → Request

-- The request comes before the instant `later`, and no sign-out before `start`.
abbrev pub Before : ℕ → ℕ → Request → Type 0
Before start later (asks token now parsed_at) = now ≤ later
Before start later (signs_out token now now') = (now ≤ later) × (start ≤ now')

module _ (jwt : Jwt) where
  unfoldable pub step : Request → SessionManager → SessionManager
  step (asks token now parsed_at) m = (get jwt token now parsed_at m).0
  step (signs_out token now now') m = destroy token now now' m

  unfoldable pub run : List Request → SessionManager → SessionManager
  run [] m = m
  run (r ∷ rs) m = run rs (step r m)

-- The revocation of the token lasts to `until` or longer.
abbrev Lasts : ℕ → Option ℕ → Type 0
Lasts until none = ⊥
Lasts until (some exp) = until ≤ exp

record IsRevoked (token : String) (until ttl : ℕ) (m : SessionManager) : Type 0 where
  is_map : IsMap m.revoked
  lasts : Lasts until (lookup token m.revoked)
  same_ttl : m.ttl ≡ ttl

module _ (token : String) (until ttl : ℕ) where
  prune-IsRevoked :
      (now : ℕ) (m : SessionManager)
      → now ≤ until
      → IsRevoked token until ttl m
      → IsRevoked token until ttl (prune_revoked_locked now m)
  unfolding prune_revoked_locked
  prune-IsRevoked now m t r = record {
    is_map = delete_if-IsMap (lapsed now) m.revoked r.is_map;
    lasts = elim (Option-cases (lookup token m.revoked)) [
      | inl e ↦ absurd (ground (arith, r.lasts, e))
      | inr (exp, e) ↦
          ground (arith, r.lasts, e, lookup-delete_if (lapsed now) token m.revoked r.is_map)
    ];
    same_ttl = r.same_ttl;
  }

  destroy-IsRevoked :
      (other : String) (now now' : ℕ) (m : SessionManager)
      → now ≤ until
      → until ≤ now' + ttl
      → IsRevoked token until ttl m
      → IsRevoked token until ttl (destroy other now now' m)
  unfolding destroy prune_revoked_locked
  destroy-IsRevoked other now now' m t u r =
      let p = prune_revoked_locked now m in
      let q = prune-IsRevoked now m t r in
      if_elim (IsRevoked token until ttl) (other == "") m
        (record p { revoked = insert other (now' + m.ttl) p.revoked }) (λ b. r)
        (λ b. record {
          is_map = insert-IsMap other (now' + m.ttl) p.revoked q.is_map;
          lasts = rw (lookup-insert other token (now' + m.ttl) p.revoked) (
              if_elim (Lasts until) (other == token) (some (now' + m.ttl)) (lookup token p.revoked)
                (λ c. ground (arith, r.same_ttl)) (λ c. q.lasts));
          same_ttl = r.same_ttl;
        })

  kept_by_delete :
      (other : String) (now exp : ℕ) (m : SessionManager)
      → now ≤ until
      → IsRevoked token until ttl m
      → lookup other m.revoked ≡ some exp
      → ltb exp now ≡ true
      → Lasts until (lookup token (delete other m.revoked))
  kept_by_delete other now exp m t r e b = elim (Bool-cases (other == token)) [
    | inl c ↦
        let same = (string_eq.same_iff other token).0 c in
        absurd (ground (arith, r.lasts, ap (λ (k : String). lookup k m.revoked) same))
    | inr c ↦ rw (lookup-delete other token m.revoked) (rw c r.lasts)
  ]

  is_revoked-IsRevoked :
      (other : String) (now : ℕ) (m : SessionManager)
      → now ≤ until
      → IsRevoked token until ttl m
      → IsRevoked token until ttl (is_revoked other now m).0
  unfolding is_revoked is_revoked_over
  is_revoked-IsRevoked other now m t r = elim (Option-cases (lookup other m.revoked)) [
    | inl e ↦ rw (e, is_revoked) (prune-IsRevoked now m t r)
    | inr (exp, e) ↦
        rw (e, is_revoked)
          (if_elim (λ (x : SessionManager × Bool). IsRevoked token until ttl x.0) (ltb exp now)
            (record m { revoked = delete other m.revoked }, false) (m, true)
            (λ b. record {
              is_map = delete-IsMap other m.revoked r.is_map;
              lasts = kept_by_delete other now exp m t r e b;
              same_ttl = r.same_ttl;
            })
            (λ b. r))
  ]

module _ (jwt : Jwt) (token : String) (start ttl : ℕ) where
  get-IsRevoked :
      (r : SessionManager × Bool) (other : String) (parsed_at : ℕ)
      → IsRevoked token (start + ttl) ttl r.0
      → IsRevoked token (start + ttl) ttl (get_unrevoked jwt other parsed_at r).0
  unfolding get_unrevoked
  get-IsRevoked (m, true) other parsed_at h = h
  get-IsRevoked (m, false) other parsed_at h = h

  step-IsRevoked :
      (later : ℕ) (q : Request) (m : SessionManager)
      → later ≤ start + ttl
      → Before start later q
      → IsRevoked token (start + ttl) ttl m
      → IsRevoked token (start + ttl) ttl (step jwt q m)
  unfolding step get
  step-IsRevoked later (asks other now parsed_at) m l b r =
      get-IsRevoked (is_revoked other now m) other parsed_at
        (is_revoked-IsRevoked token (start + ttl) ttl other now m (omega arith) r)
  step-IsRevoked later (signs_out other now now') m l b r =
      destroy-IsRevoked token (start + ttl) ttl other now now' m (omega arith) (omega arith) r

  run-IsRevoked :
      (later : ℕ) (rs : List Request) (m : SessionManager)
      → later ≤ start + ttl
      → All (Before start later) rs
      → IsRevoked token (start + ttl) ttl m
      → IsRevoked token (start + ttl) ttl (run jwt rs m)
  unfolding run
  run-IsRevoked later [] m l b r = r
  run-IsRevoked later (q ∷ rs) m l b r =
      run-IsRevoked later rs (step jwt q m) l b.1 (step-IsRevoked later q m l b.0 r)

lapsed-not-valid :
    (x : Expected) (c : Claims) (exp : ℕ)
    → c.expires_at ≡ some exp
    → exp ≤ x.now
    → valid x c ≡ false
unfolding valid
lapsed-not-valid x c exp e t = ground (arith, e)

-- Destroying a token leaves a revocation that lasts for the lifetime.
destroy-new :
    (token : String) (until ttl now now' : ℕ) (m : SessionManager)
    → token ≢ ""
    → IsMap m.revoked
    → m.ttl ≡ ttl
    → until ≤ now' + ttl
    → IsRevoked token until ttl (destroy token now now' m)
unfolding destroy prune_revoked_locked
destroy-new token until ttl now now' m n w same u =
    let p = prune_revoked_locked now m in
    let e : (token == "") ≡ false = ground (arith, string_eq.same_iff token "") in
    rw e (record {
      is_map =
          insert-IsMap token (now' + m.ttl) p.revoked (delete_if-IsMap (lapsed now) m.revoked w);
      lasts =
          rw (lookup-insert token token (now' + m.ttl) p.revoked)
            (rw (beq_refl token) (omega arith));
      same_ttl = same;
    })

module _ (jwt : Jwt) where
  -- An entry that lasts refuses the token.
  refused_by_entry :
      (token : String) (until ttl now parsed_at : ℕ) (m : SessionManager)
      → now ≤ until
      → IsRevoked token until ttl m
      → (get jwt token now parsed_at m).1 ≡ none
  unfolding get get_unrevoked is_revoked is_revoked_over
  refused_by_entry token until ttl now parsed_at m t r =
      elim (Option-cases (lookup token m.revoked)) [
        | inl e ↦ absurd (ground (arith, r.lasts, e))
        | inr (exp, e) ↦ ground (arith, r.lasts, e)
      ]

  lapsed_parse :
      (c : Claims) (exp parsed_at : ℕ) (r : SessionManager × Bool)
      → c.expires_at ≡ some exp
      → exp ≤ parsed_at
      → (get_unrevoked jwt (jwt.sign c) parsed_at r).1 ≡ none
  unfolding get_unrevoked parsed_session
  lapsed_parse c exp parsed_at (m, true) e t = refl
  lapsed_parse c exp parsed_at (m, false) e t =
      let x : Expected = record { issuer = session_issuer; audience = []; now = parsed_at } in
      rw (jwt.parse-sign x c, lapsed-not-valid x c exp e t) refl

  -- A token that has lapsed is refused whatever the manager holds.
  refused_by_time :
      (c : Claims) (exp now parsed_at : ℕ) (m : SessionManager)
      → c.expires_at ≡ some exp
      → exp ≤ parsed_at
      → (get jwt (jwt.sign c) now parsed_at m).1 ≡ none
  unfolding get
  refused_by_time c exp now parsed_at m e t =
      lapsed_parse c exp parsed_at (is_revoked (jwt.sign c) now m) e t

  -- After a session was destroyed, and whatever requests and sign-outs follow, the manager refuses
  -- its token at every later instant. The clock does not run backwards from the session's start to
  -- that instant, and the revocations are kept by a manager with the lifetime of the session's.
  pub destroyed_refused :
      (m m' : SessionManager) (user csrf id : String) (versions : List ℤ)
      (start out out' now parsed_at : ℕ) (rs : List Request)
      → let token = (create jwt m user versions csrf id start).id in
        m'.ttl ≡ m.ttl
        → IsMap m'.revoked
        → token ≢ ""
        → (out ≤ now) × (start ≤ out') × (now ≤ parsed_at)
        → All (Before start now) rs
        → (get jwt token now parsed_at (run jwt rs (destroy token out out' m'))).1 ≡ none
  unfolding create session_claims
  destroyed_refused m m' user csrf id versions start out out' now parsed_at rs same w n t b =
      let until = start + m.ttl in
      let c = session_claims jwt user (given_version versions) csrf id start until in
      let token = jwt.sign c in
      let d = destroy token out out' m' in
      elim (Bool-cases (ltb parsed_at until)) [
        | inl l ↦ refused_by_entry token until m.ttl now parsed_at (run jwt rs d) (ground arith) (
            run-IsRevoked jwt token start m.ttl now rs d (ground arith) b
              (destroy-new token until m.ttl out out' m' n w same (omega (arith, t))))
        | inr l ↦
            refused_by_time c (jwt.numeric_date until) now parsed_at (run jwt rs d) refl
              (ground (arith, jwt.numeric_date-le until, l))
      ]
