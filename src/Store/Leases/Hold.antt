-- ===== src/Store/Leases/Hold.antt =====
-- What a lease gives its holder: no one else gets the key while it is live, and a holder that lost
-- its lease can no longer touch the row of the next one.
use shellcn.Prelude.{
  ℕ, ◌≤◌, ◌<◌, ◌≡◌, ◌≢◌, String, Bool, false, List, [], ◌∷◌, Option, none, some, arith, string_eq,
  Option-cases, inl, inr, All,
}
use shellcn.Prelude.Map.{
  lookup, lookup-insert, lookup-delete, lookup-delete_if, IsMap, insert-IsMap, delete-IsMap,
  delete_if-IsMap,
}
use shellcn.Store.Leases.{
  LiveStateLease, Leases, claimed_row, claim, get, renew, prefer_internal_url, release, lapsed,
  delete_expired,
}

-- A call of the store, by any instance.
pub data Call : Type 0 where
  claims : LiveStateLease → Bool → Call
  gets : String → Call
  renews : String → String → ℕ → Call
  prefers : String → String → String → Call
  releases : String → String → Call
  purges : Call

unfoldable pub step : (String → Option (List String)) → ℕ × Call → Leases → Leases
step decode (now, claims lease replace) m = (claim decode lease replace now m).0
step decode (now, gets key) m = (get key now m).0
step decode (now, renews key lease_id expires_at) m = (renew key lease_id expires_at now m).0
step decode (now, prefers key lease_id url) m = (prefer_internal_url key lease_id url now m).0
step decode (now, releases key lease_id) m = release key lease_id m
step decode (now, purges) m = (delete_expired now m).0

unfoldable pub run : (String → Option (List String)) → List (ℕ × Call) → Leases → Leases
run decode [] m = m
run decode (c ∷ cs) m = run decode cs (step decode c m)

-- The row is the holder's, and lapses at `until` or later.
abbrev pub OwnRow : String → ℕ → Option LiveStateLease → Type 0
OwnRow lease_id until none = ⊥
OwnRow lease_id until (some l) = (l.lease_id ≡ lease_id) × (until ≤ l.expires_at)

abbrev pub Holds : String → String → ℕ → Leases → Type 0
Holds key lease_id until m = OwnRow lease_id until (lookup key m)

-- The holder does not release or shorten its lease, and no one takes the key by replacement.
abbrev pub Leaves : String → String → ℕ → Call → Type 0
Leaves key lease_id until (claims lease replace) = lease.key ≡ key → replace ≡ false
Leaves key lease_id until (gets k) = Unit
Leaves key lease_id until (renews k i e) = k ≡ key → i ≡ lease_id → until ≤ e
Leaves key lease_id until (prefers k i u) = Unit
Leaves key lease_id until (releases k i) = k ≡ key → i ≢ lease_id
Leaves key lease_id until purges = Unit

abbrev pub Undisturbed : String → String → ℕ → ℕ × Call → Type 0
Undisturbed key lease_id until (now, c) = (now < until) × Leaves key lease_id until c

module _ (decode : String → Option (List String)) (key lease_id : String) (until : ℕ) where
  claim-Holds :
      (lease : LiveStateLease) (replace : Bool) (now : ℕ) (m : Leases)
      → Holds key lease_id until m
      → now < until
      → (lease.key ≡ key → replace ≡ false)
      → Holds key lease_id until (claim decode lease replace now m).0
  unfolding claim
  claim-Holds lease replace now m h t c = elim (Option-cases (lookup lease.key m)) [
    | inl e ↦
        rw (e, claim)
          (ground (
            arith,
            string_eq.same_iff lease.key key,
            lookup-insert lease.key key (claimed_row decode none lease now) m,
          ))
    | inr (l, e) ↦
        rw (e, claim)
          (ground (
            arith,
            string_eq.same_iff lease.key key,
            lookup-insert lease.key key (claimed_row decode (some l) lease now) m,
          ))
  ]

  get-Holds :
      (k : String) (now : ℕ) (m : Leases)
      → Holds key lease_id until m
      → now < until
      → Holds key lease_id until (get k now m).0
  unfolding get
  get-Holds k now m h t = elim (Option-cases (lookup k m)) [
    | inl e ↦ rw (e, get) h
    | inr (l, e) ↦ rw (e, get) (ground (arith, string_eq.same_iff k key, lookup-delete k key m))
  ]

  renew-Holds :
      (k i : String) (e now : ℕ) (m : Leases)
      → Holds key lease_id until m
      → (k ≡ key → i ≡ lease_id → until ≤ e)
      → Holds key lease_id until (renew k i e now m).0
  unfolding renew
  renew-Holds k i e now m h c = elim (Option-cases (lookup k m)) [
    | inl p ↦ rw (p, renew) h
    | inr (l, p) ↦
        rw (p, renew)
          (ground (
            arith,
            string_eq.same_iff k key,
            string_eq.same_iff l.lease_id i,
            lookup-insert k key (record l { expires_at = e; updated_at = now }) m,
          ))
  ]

  prefer-Holds :
      (k i u : String) (now : ℕ) (m : Leases)
      → Holds key lease_id until m
      → Holds key lease_id until (prefer_internal_url k i u now m).0
  unfolding prefer_internal_url
  prefer-Holds k i u now m h = elim (Option-cases (lookup k m)) [
    | inl p ↦ rw (p, prefer_internal_url) h
    | inr (l, p) ↦
        rw (p, prefer_internal_url)
          (ground (
            arith,
            string_eq.same_iff k key,
            lookup-insert k key (record l { internal_url = u; updated_at = now }) m,
          ))
  ]

  release-Holds :
      (k i : String) (m : Leases)
      → Holds key lease_id until m
      → (k ≡ key → i ≢ lease_id)
      → Holds key lease_id until (release k i m)
  unfolding release
  release-Holds k i m h c = elim (Option-cases (lookup k m)) [
    | inl p ↦ rw (p, release) h
    | inr (l, p) ↦
        rw (p, release)
          (ground (
            arith,
            string_eq.same_iff k key,
            string_eq.same_iff l.lease_id i,
            lookup-delete k key m,
          ))
  ]

  delete_expired-Holds :
      (now : ℕ) (m : Leases)
      → IsMap m
      → Holds key lease_id until m
      → now < until
      → Holds key lease_id until (delete_expired now m).0
  unfolding delete_expired
  delete_expired-Holds now m w h t = ground (arith, lookup-delete_if (lapsed now) key m w)

  step-Holds :
      (c : ℕ × Call) (m : Leases)
      → IsMap m
      → Undisturbed key lease_id until c
      → Holds key lease_id until m
      → Holds key lease_id until (step decode c m)
  unfolding step
  step-Holds (now, claims lease replace) m w u h = claim-Holds lease replace now m h u.0 u.1
  step-Holds (now, gets k) m w u h = get-Holds k now m h u.0
  step-Holds (now, renews k i e) m w u h = renew-Holds k i e now m h u.1
  step-Holds (now, prefers k i url) m w u h = prefer-Holds k i url now m h
  step-Holds (now, releases k i) m w u h = release-Holds k i m h u.1
  step-Holds (now, purges) m w u h = delete_expired-Holds now m w h u.0

-- Every call keeps the table a map.
pub step-IsMap :
    (decode : String → Option (List String)) (c : ℕ × Call) (m : Leases)
    → IsMap m
    → IsMap (step decode c m)
unfolding step claim get renew prefer_internal_url release delete_expired
step-IsMap decode (now, claims lease replace) m w = elim (Option-cases (lookup lease.key m)) [
  | inl e ↦ rw (e, step, claim) (insert-IsMap lease.key (claimed_row decode none lease now) m w)
  | inr (l, e) ↦
      rw (e, step, claim)
        (ground (arith, insert-IsMap lease.key (claimed_row decode (some l) lease now) m w))
]
step-IsMap decode (now, gets k) m w = ground (arith, delete-IsMap k m w)
step-IsMap decode (now, renews k i e) m w = elim (Option-cases (lookup k m)) [
  | inl p ↦ rw (p, step, renew) w
  | inr (l, p) ↦
      rw (p, step, renew)
        (ground (arith, insert-IsMap k (record l { expires_at = e; updated_at = now }) m w))
]
step-IsMap decode (now, prefers k i url) m w = elim (Option-cases (lookup k m)) [
  | inl p ↦ rw (p, step, prefer_internal_url) w
  | inr (l, p) ↦
      rw (p, step, prefer_internal_url)
        (ground (arith, insert-IsMap k (record l { internal_url = url; updated_at = now }) m w))
]
step-IsMap decode (now, releases k i) m w = ground (arith, delete-IsMap k m w)
step-IsMap decode (now, purges) m w = delete_if-IsMap (lapsed now) m w

pub run-Holds :
    (decode : String → Option (List String)) (key lease_id : String) (until : ℕ)
    (cs : List (ℕ × Call)) (m : Leases)
    → IsMap m
    → All (Undisturbed key lease_id until) cs
    → Holds key lease_id until m
    → Holds key lease_id until (run decode cs m)
unfolding run
run-Holds decode key lease_id until [] m w u h = h
run-Holds decode key lease_id until (c ∷ cs) m w u h =
    run-Holds decode key lease_id until cs (step decode c m) (step-IsMap decode c m w) u.1
      (step-Holds decode key lease_id until c m w u.0 h)
