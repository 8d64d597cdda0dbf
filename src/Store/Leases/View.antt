-- ===== src/Store/Leases/View.antt =====
-- The lease store seen from outside: at each instant, the live lease of each key. A lapsed row and
-- no row look alike, so the lazy deletion of `Get` and `DeleteExpired` cannot be seen.
use shellcn.Prelude.{
  ℕ, ◌≤◌, ◌≡◌, refl, String, Bool, true, false, not, List, Option, none, some, arith, string_eq,
  if◌then◌else◌, Option-cases, inl, inr, Bool-cases, ◌⊎◌, ◌&&◌,
}
use shellcn.Prelude.Map.{lookup, insert, lookup-delete, lookup-delete_if, IsMap}
use shellcn.Store.Errors.{not_found}
use shellcn.Store.Leases.{
  LiveStateLease, Leases, is_live, claimed_row, granted, held, claim, found, missing, get, lapsed,
  delete_expired,
}

-- The live part of a row.
abbrev pub live_row : ℕ → Option LiveStateLease → Option LiveStateLease
live_row now none = none
live_row now (some l) = if is_live now l then some l else none

abbrev pub view : ℕ → String → Leases → Option LiveStateLease
view now key m = live_row now (lookup key m)

-- `Get` answers with the view, and leaves every view from then on as it was.
pub get-view :
    (key : String) (now later : ℕ) (j : String) (m : Leases)
    → now ≤ later
    → ((get key now m).1 ≡ elim (view now key m) [ none ↦ missing not_found | some l ↦ found l ])
      × (view later j (get key now m).0 ≡ view later j m)
unfolding get
get-view key now later j m h = elim (Option-cases (lookup key m)) [
  | inl e ↦ ground (arith, e)
  | inr (l, e) ↦ ground (arith, e, string_eq.same_iff key j, lookup-delete key j m)
]

-- `DeleteExpired` leaves every view from then on as it was.
pub delete_expired-view :
    (now later : ℕ) (j : String) (m : Leases)
    → IsMap m
    → now ≤ later
    → view later j (delete_expired now m).0 ≡ view later j m
unfolding delete_expired
delete_expired-view now later j m w h = elim (Option-cases (lookup j m)) [
  | inl e ↦ ground (arith, e, lookup-delete_if (lapsed now) j m w)
  | inr (l, e) ↦ ground (arith, e, lookup-delete_if (lapsed now) j m w)
]

-- A claim is refused exactly when another lease is live and the claim does not replace. The holder
-- is then reported and nothing changes; otherwise the claimant's row, under its own lease id and
-- expiry, is all that changes.
pub claim-view :
    (decode : String → Option (List String)) (lease : LiveStateLease) (replace : Bool) (now : ℕ)
    (m : Leases)
    → ((l : LiveStateLease) × (view now lease.key m ≡ some l)
        × (replace ≡ false)
        × (claim decode lease replace now m ≡ (m, held l)))
      ⊎ ((row : LiveStateLease) × ((view now lease.key m ≡ none) ⊎ (replace ≡ true))
          × (row.lease_id ≡ lease.lease_id)
          × (row.expires_at ≡ lease.expires_at)
          × (claim decode lease replace now m ≡ (insert lease.key row m, granted row)))
unfolding claim claimed_row
claim-view decode lease replace now m = elim (Option-cases (lookup lease.key m)) [
  | inl e ↦
      rw (e, claim)
        (inr (record lease { created_at = now; updated_at = now }, inl refl, refl, refl, refl))
  | inr (l, e) ↦ elim (Bool-cases (is_live now l && not replace)) [
    | inl b ↦ inl (l, ground (arith, e), ground (arith, e), ground (arith, e))
    | inr b ↦
        inr
          (claimed_row decode (some l) lease now, ground (arith, e), refl, refl, ground (arith, e))
  ]
]
