-- ===== src/Live/Claims.antt =====
-- What a claim through the registry gives: a reference that reads back as the instance that made
-- it, and the key for itself.
use shellcn.Prelude.{
  ℕ, ◌+◌, ◌<◌, ◌≡◌, ◌≢◌, refl, sym, ap, ◌∙◌, inl, inr, String, Bool, false, List, none, some, arith,
  ◌==◌, string_eq, All, beq_refl,
}
use shellcn.Prelude.Int.{pos_part}
use shellcn.Prelude.Map.{lookup, insert, lookup-insert, IsMap}
use shellcn.Store.Leases.{
  LiveStateLease, Leases, ClaimResult, granted, held, claim, claimed_row, get,
}
use shellcn.Store.Leases.View.{claim-view}
use shellcn.Store.Leases.Hold.{Call, run, Undisturbed}
use shellcn.Store.Leases.Exclusion.{granted_excludes}
use shellcn.Live.{
  Outside, InstanceRef, LeaseRef, ClaimOptions, with_defaults, claim_replace, StoreLease, lease,
  refused, lease_held, new_instance_ref, lease_ref_from_model, wanted_row, claimed, registry_claim,
  registry_get, got,
}
use shellcn.Live.Ownership.{same_instance}

module _ (o : Outside) where
  claimed-lease :
      (ttl : ℕ) (r : Leases × ClaimResult) (l : StoreLease)
      → (claimed o ttl r).1 ≡ lease l
      → (row : LiveStateLease) × (r.1 ≡ granted row)
        × (l.ref.expires_at ≡ row.expires_at)
        × ((claimed o ttl r).0 ≡ r.0)
  unfolding claimed lease_ref_from_model
  claimed-lease ttl (m, granted row) l h = (row, refl, ground (arith, h), refl)
  claimed-lease ttl (m, held row) l h = absurd (cc)

  -- A claim that got a lease went to the store, with its key and its lease id.
  claimed_through :
      (key : String) (a : InstanceRef) (opts : ClaimOptions) (id : String) (now : ℕ) (m : Leases)
      (l : StoreLease)
      → (registry_claim o key a opts id now m).1 ≡ lease l
      → let r =
          claim o.unmarshal
            (wanted_row o key a id (pos_part (with_defaults opts).ttl) now)
            ((with_defaults opts).mode == claim_replace)
            now
            m in
        ((key == "") ≡ false)
        × (registry_claim o key a opts id now m ≡ claimed o (pos_part (with_defaults opts).ttl) r)
  unfolding registry_claim
  claimed_through key a opts id now m l h = (ground arith, ground arith)

  refused_by :
      (key : String) (b : InstanceRef) (opts : ClaimOptions) (id : String) (now : ℕ) (m : Leases)
      (row : LiveStateLease)
      → (key == "") ≡ false
      → b.id ≢ ""
      → claim o.unmarshal
          (wanted_row o key b id (pos_part (with_defaults opts).ttl) now)
          ((with_defaults opts).mode == claim_replace)
          now
          m
        ≡ (m, held row)
      → registry_claim o key b opts id now m ≡ (m, refused (lease_held row.instance_id))
  unfolding registry_claim claimed
  refused_by key b opts id now m row k n e = ground (arith, string_eq.same_iff b.id "", e)

  expires_at-granted :
      (mine : LiveStateLease) (replace : Bool) (now : ℕ) (m : Leases) (row : LiveStateLease)
      → (claim o.unmarshal mine replace now m).1 ≡ granted row
      → row.expires_at ≡ mine.expires_at
  expires_at-granted mine replace now m row g = elim (claim-view o.unmarshal mine replace now m) [
    | inl (l, v, r, e) ↦ absurd (cc (ap (λ p. p.1) e))
    | inr (row', v, i, x, e) ↦ ground (arith, g, x, ap (λ (p : Leases × ClaimResult). p.1) e)
  ]

  pub lease_expires_at :
      (key : String) (a : InstanceRef) (opts : ClaimOptions) (id : String) (now : ℕ) (m : Leases)
      (l : StoreLease)
      → (registry_claim o key a opts id now m).1 ≡ lease l
      → l.ref.expires_at ≡ now + pos_part (with_defaults opts).ttl
  unfolding wanted_row
  lease_expires_at key a opts id now m l g =
      let ttl = pos_part (with_defaults opts).ttl in
      let mine = wanted_row o key a id ttl now in
      let replace = (with_defaults opts).mode == claim_replace in
      let (k, e) = claimed_through key a opts id now m l g in
      let (row, gr, lapse, same) =
        claimed-lease ttl (claim o.unmarshal mine replace now m) l (sym (ap (λ p. p.1) e) ∙ g) in
      lapse ∙ expires_at-granted mine replace now m row gr

  -- While a lease that was claimed through the registry has not lapsed, and whatever calls reach
  -- the store short of a replacing claim of the key, a release with the lease's id and a renewal
  -- with that id to an earlier instant, a claim of the key by any instance that does not ask to
  -- replace is refused as held, and changes nothing.
  pub registry_claim_excludes :
      (key : String) (a b : InstanceRef) (opts opts' : ClaimOptions) (id id' : String)
      (now later : ℕ) (m : Leases) (l : StoreLease) (cs : List (ℕ × Call))
      → IsMap m
      → (registry_claim o key a opts id now m).1 ≡ lease l
      → All (Undisturbed key id l.ref.expires_at) cs
      → later < l.ref.expires_at
      → b.id ≢ ""
      → (with_defaults opts').mode ≢ claim_replace
      → let m' = run o.unmarshal cs (registry_claim o key a opts id now m).0 in
        (name : String) × (registry_claim o key b opts' id' later m'
          ≡ (m', refused (lease_held name)))
  unfolding wanted_row
  registry_claim_excludes key a b opts opts' id id' now later m l cs w g u t n r =
      let ttl = pos_part (with_defaults opts).ttl in
      let mine = wanted_row o key a id ttl now in
      let replace = (with_defaults opts).mode == claim_replace in
      let (k, e) = claimed_through key a opts id now m l g in
      let (row, gr, lapse, same) =
        claimed-lease ttl (claim o.unmarshal mine replace now m) l (sym (ap (λ p. p.1) e) ∙ g) in
      let x = lease_expires_at key a opts id now m l g in
      let (h, i, c) =
        granted_excludes o.unmarshal mine
          (wanted_row o key b id' (pos_part (with_defaults opts').ttl) later) replace now later m
          row cs w gr (rw (sym x) u) refl (rw (sym x) t) in
      let q : ((with_defaults opts').mode == claim_replace) ≡ false =
        ground (arith, string_eq.same_iff (with_defaults opts').mode claim_replace) in
      rw (ap (λ p. p.0) e ∙ same) (h.instance_id, refused_by key b opts' id' later _ h k n (rw q c))

  -- The row that a claim of a key with no row writes.
  pub fresh_row : String → InstanceRef → String → ℕ → ℕ → LiveStateLease
  fresh_row key a lease_id ttl now =
      let mine = wanted_row o key a lease_id ttl now in
      record mine { created_at = now; updated_at = now }

  pub registry_claim_fresh :
      (key : String) (a : InstanceRef) (opts : ClaimOptions) (lease_id : String) (now : ℕ)
      (m : Leases)
      → lookup key m ≡ none
      → key ≢ ""
      → a.id ≢ ""
      → let ttl = pos_part (with_defaults opts).ttl in
        let row = fresh_row key a lease_id ttl now in
        registry_claim o key a opts lease_id now m
        ≡ (insert key row m, lease (record { ref = lease_ref_from_model o row; ttl = ttl }))
  unfolding registry_claim claimed wanted_row claim claimed_row fresh_row
  registry_claim_fresh key a opts lease_id now m e k n =
      let p : (key == "") ≡ false = ground (arith, string_eq.same_iff key "") in
      let q : (a.id == "") ≡ false = ground (arith, string_eq.same_iff a.id "") in
      ground (arith, p, q, e)

  get-fresh_row :
      (key : String) (a : InstanceRef) (lease_id : String) (ttl now later : ℕ) (m : Leases)
      → later < now + ttl
      → (registry_get o key later (insert key (fresh_row key a lease_id ttl now) m)).1
        ≡ some (lease_ref_from_model o (fresh_row key a lease_id ttl now))
  unfolding registry_get got get fresh_row wanted_row
  get-fresh_row key a lease_id ttl now later m t =
      ground (arith, lookup-insert key key (fresh_row key a lease_id ttl now) m, beq_refl key)

  ref-fresh_row :
      (key id : String) (internal_urls : List String) (lease_id : String) (ttl now : ℕ)
      → let a = new_instance_ref o id internal_urls in
        lease_ref_from_model o (fresh_row key a lease_id ttl now)
        ≡ record { instance_ref = a; key = key; lease_id = lease_id; expires_at = now + ttl }
  unfolding lease_ref_from_model fresh_row wanted_row new_instance_ref
  ref-fresh_row key id internal_urls lease_id ttl now =
      ap
        (λ (i : InstanceRef). record {
          instance_ref = i;
          key = key;
          lease_id = lease_id;
          expires_at = now + ttl;
        })
        (same_instance o id internal_urls)

  -- A claim of a key with no row gives a lease with the instance as it is, the key, the lease id
  -- and the lapse after the lifetime asked for; and until then a reader of any instance gets that
  -- reference from the store.
  pub registry_claim-get :
      (key id : String) (internal_urls : List String) (opts : ClaimOptions) (lease_id : String)
      (now later : ℕ) (m : Leases)
      → lookup key m ≡ none
      → key ≢ ""
      → id ≢ ""
      → later < now + pos_part (with_defaults opts).ttl
      → let a = new_instance_ref o id internal_urls in
        let ttl = pos_part (with_defaults opts).ttl in
        let ref : LeaseRef = record {
          instance_ref = a;
          key = key;
          lease_id = lease_id;
          expires_at = now + ttl;
        } in
        let r = registry_claim o key a opts lease_id now m in
        (r.1 ≡ lease (record { ref = ref; ttl = ttl }))
        × ((registry_get o key later r.0).1 ≡ some ref)
  unfolding new_instance_ref
  registry_claim-get key id internal_urls opts lease_id now later m e k n t =
      let a = new_instance_ref o id internal_urls in
      let ttl = pos_part (with_defaults opts).ttl in
      let row = fresh_row key a lease_id ttl now in
      let p = registry_claim_fresh key a opts lease_id now m e k n in
      let same = ref-fresh_row key id internal_urls lease_id ttl now in
      (
        ap (λ p. p.1) p ∙ ap (λ r. lease (record { ref = r; ttl = ttl })) same,
        rw p (get-fresh_row key a lease_id ttl now later m t ∙ ap (λ r. some r) same),
      )
