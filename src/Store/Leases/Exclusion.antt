-- ===== src/Store/Leases/Exclusion.antt =====
-- What a granted claim gives its holder, and takes from the holder before.
use shellcn.Prelude.{
  ℕ, ◌<◌, ◌≡◌, ◌≢◌, String, Bool, false, List, Option, arith, string_eq, Option-cases, inl, inr,
  All, beq_refl, ap,
}
use shellcn.Prelude.Map.{lookup, lookup-insert, IsMap}
use shellcn.Store.Leases.View.{claim-view}
use shellcn.Store.Leases.{
  LiveStateLease, Leases, granted, held, claim, renew, prefer_internal_url, release,
}
use shellcn.Store.Leases.Hold.{Call, claims, Holds, Undisturbed, step, run, step-IsMap, run-Holds}

granted-Holds :
    (decode : String → Option (List String)) (mine : LiveStateLease) (replace : Bool) (now : ℕ)
    (m : Leases) (row : LiveStateLease)
    → (claim decode mine replace now m).1 ≡ granted row
    → Holds mine.key mine.lease_id mine.expires_at (claim decode mine replace now m).0
granted-Holds decode mine replace now m row g = elim (claim-view decode mine replace now m) [
  | inl (l, v, r, e) ↦ absurd (cc (ap (λ p. p.1) e))
  | inr (row', v, i, x, e) ↦
      rw e (rw (lookup-insert mine.key mine.key row' m, beq_refl mine.key) (i, omega arith))
]

Holds-refuses :
    (decode : String → Option (List String)) (key lease_id : String) (until : ℕ)
    (lease : LiveStateLease) (later : ℕ) (m : Leases)
    → lease.key ≡ key
    → later < until
    → Holds key lease_id until m
    → (l : LiveStateLease) × (l.lease_id ≡ lease_id)
      × (claim decode lease false later m ≡ (m, held l))
Holds-refuses decode key lease_id until lease later m k t h =
    elim (claim-view decode lease false later m) [
      | inl (l, v, r, e) ↦ (l, ground (arith, k), e)
      | inr (row, inl v, i, x, e) ↦ absurd (ground (arith, k))
      | inr (row, inr v, i, x, e) ↦ absurd (cc)
    ]

fenced :
    (key lease_id : String) (until expires_at later : ℕ) (old_id url : String) (m : Leases)
    → Holds key lease_id until m
    → lease_id ≢ old_id
    → (renew key old_id expires_at later m ≡ (m, false))
      × (prefer_internal_url key old_id url later m ≡ (m, false))
      × (release key old_id m ≡ m)
unfolding renew prefer_internal_url release
fenced key lease_id until expires_at later old_id url m h d = elim (Option-cases (lookup key m)) [
  | inl e ↦ absurd (ground (arith, e))
  | inr (l, e) ↦
      rw (e, renew, prefer_internal_url, release)
        (ground (arith, string_eq.same_iff l.lease_id old_id))
]

-- After a granted claim, as long as the lease has not lapsed and whatever calls any instance makes,
-- in any order, short of a replacing claim of the key, the holder's own release and a renewal by
-- the holder to an earlier instant: an exclusive claim of the key is refused, names the holder's
-- lease, and changes nothing.
pub granted_excludes :
    (decode : String → Option (List String)) (mine lease : LiveStateLease) (replace : Bool)
    (now later : ℕ) (m : Leases) (row : LiveStateLease) (cs : List (ℕ × Call))
    → IsMap m
    → (claim decode mine replace now m).1 ≡ granted row
    → All (Undisturbed mine.key mine.lease_id mine.expires_at) cs
    → lease.key ≡ mine.key
    → later < mine.expires_at
    → let m' = run decode cs (claim decode mine replace now m).0 in
      (l : LiveStateLease) × (l.lease_id ≡ mine.lease_id)
      × (claim decode lease false later m' ≡ (m', held l))
unfolding step
granted_excludes decode mine lease replace now later m row cs w g u k t =
    Holds-refuses decode mine.key mine.lease_id mine.expires_at lease later _ k t (
      run-Holds decode mine.key mine.lease_id mine.expires_at cs _
        (step-IsMap decode (now, claims mine replace) m w) u
        (granted-Holds decode mine replace now m row g))

-- A holder whose lease has lapsed and whose key another lease id has claimed gets nothing from its
-- own calls: renewing and preferring a URL answer no, and they and releasing change nothing.
pub takeover_fences :
    (decode : String → Option (List String)) (next : LiveStateLease) (replace : Bool)
    (now later expires_at : ℕ) (old_id url : String) (m : Leases) (row : LiveStateLease)
    → (claim decode next replace now m).1 ≡ granted row
    → next.lease_id ≢ old_id
    → let m' = (claim decode next replace now m).0 in
      (renew next.key old_id expires_at later m' ≡ (m', false))
      × (prefer_internal_url next.key old_id url later m' ≡ (m', false))
      × (release next.key old_id m' ≡ m')
takeover_fences decode next replace now later expires_at old_id url m row g d =
    fenced next.key next.lease_id next.expires_at expires_at later old_id url _
      (granted-Holds decode next replace now m row g) d
