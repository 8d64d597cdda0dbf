-- ===== src/Plugin/Schema/Visible.antt =====
-- What the projections of a schema keep: the values of visible fields, and no other.
use shellcn.Prelude.{
  ◌≡◌, refl, inl, inr, ◌↔◌, String, Bool, true, false, ◌&&◌, ◌||◌, List, [], ◌∷◌, Option, none,
  some, arith, if◌then◌else◌, ◌==◌, string_eq, Bool-cases, Option-cases,
}
use shellcn.Prelude.Map.{Map, lookup, insert, lookup-insert}
use shellcn.Plugin.Values.{Value, Library}
use shellcn.Plugin.Condition.{Condition, visible_if}
use mathlib.Core.Path.{subst}
use shellcn.Plugin.Condition.Holds.{Some, Holds, visible-Holds}
use shellcn.Plugin.Schema.Defaults.{over}
use shellcn.Plugin.Schema.{
  Field, Schema, fields_of, merged_condition_values, is_visible, visible_values_from,
  visible_values, visible_secret_keys_from, visible_secret_keys,
}

module _ {F : Type 0} (lib : Library F) (condition_values : Map String (Value F)) where
  -- Whether some visible field has the key.
  unfoldable shows : String → List (Field F) → Bool
  shows k [] = false
  shows k (f ∷ fields) = f.key == k && is_visible lib condition_values f || shows k fields

  lookup-visible_values_from :
      (k : String) (values : Map String (Value F)) (fields : List (Field F))
      (out : Map String (Value F))
      → lookup k (visible_values_from lib condition_values values fields out)
        ≡ over (if shows k fields then lookup k values else none) (lookup k out)
  unfolding visible_values_from shows
  lookup-visible_values_from k values [] out = refl
  lookup-visible_values_from k values (f ∷ fields) out =
      elim (Bool-cases (is_visible lib condition_values f)) [
        | inr e ↦ ground (arith, e, lookup-visible_values_from k values fields out)
        | inl e ↦ elim (Option-cases (lookup f.key values)) [
          | inl n ↦ elim (Bool-cases (f.key == k)) [
            | inl b ↦
                let same = (string_eq.same_iff f.key k).0 b in
                let gone = subst (λ x. lookup x values ≡ none) same n in
                ground (arith, e, n, gone, b, lookup-visible_values_from k values fields out)
            | inr b ↦ ground (arith, e, n, b, lookup-visible_values_from k values fields out)
          ]
          | inr (v, n) ↦ elim (Bool-cases (f.key == k)) [
            | inl b ↦
                let same = (string_eq.same_iff f.key k).0 b in
                let there = subst (λ x. lookup x values ≡ some v) same n in
                ground (
                  arith,
                  e,
                  n,
                  there,
                  b,
                  lookup-visible_values_from k values fields (insert f.key v out),
                  lookup-insert f.key k v out,
                )
            | inr b ↦ ground (
              arith,
              e,
              n,
              b,
              lookup-visible_values_from k values fields (insert f.key v out),
              lookup-insert f.key k v out,
            )
          ]
        ]
      ]

  -- A field that is shown: it has no condition, or one that holds.
  abbrev pub Shown : Option (Condition F) → Type 0
  Shown none = Unit
  Shown (some c) = Holds lib condition_values c

  pub visible-Shown :
      (w : Option (Condition F)) → (visible_if lib condition_values w ≡ true) ↔ Shown w
  visible-Shown none = (λ e. tt, λ h. refl)
  visible-Shown (some c) = visible-Holds lib condition_values c

  abbrev pub Shows : String → Field F → Type 0
  Shows k f = (f.key ≡ k) × Shown f.visible_when

  shows-Shows :
      (k : String) (fields : List (Field F)) → (shows k fields ≡ true) ↔ Some (Shows k) fields
  unfolding shows
  shows-Shows k [] = (λ e. absurd (cc), λ h. absurd h)
  shows-Shows k (f ∷ fields) =
      let v = visible-Shown f.visible_when in
      let rest = shows-Shows k fields in
      (
        λ e. elim (Bool-cases (f.key == k && is_visible lib condition_values f)) [
          | inl b ↦
              inl ((string_eq.same_iff f.key k).0 (ground (arith, b)), v.0 (ground (arith, b)))
          | inr b ↦ inr (rest.0 (ground (arith, b, e)))
        ],
        λ h. elim h [
          | inl p ↦ ground (arith, (string_eq.same_iff f.key k).1 p.0, v.1 p.1)
          | inr p ↦ ground (arith, rest.1 p)
        ],
      )

  abbrev pub ShowsSecret : String → Field F → Type 0
  ShowsSecret k f = (f.secret ≡ true) × (f.key ≡ k) × Shown f.visible_when

  visible_secret_keys_from-ShowsSecret :
      (k : String) (fields : List (Field F))
      → Some (λ key. key ≡ k) (visible_secret_keys_from lib condition_values fields)
        ↔ Some (ShowsSecret k) fields
  unfolding visible_secret_keys_from
  visible_secret_keys_from-ShowsSecret k [] = (λ h. h, λ h. h)
  visible_secret_keys_from-ShowsSecret k (f ∷ fields) =
      let v = visible-Shown f.visible_when in
      let rest = visible_secret_keys_from-ShowsSecret k fields in
      elim (Bool-cases (f.secret && is_visible lib condition_values f)) [
        | inl b ↦ rw b (
          (λ h. elim h [
            | inl p ↦ inl (ground (arith, b), p, v.0 (ground (arith, b)))
            | inr p ↦ inr (rest.0 p)
          ]),
          (λ h. elim h [ inl p ↦ inl p.1 | inr p ↦ inr (rest.1 p) ]),
        )
        | inr b ↦ rw b (
          (λ h. inr (rest.0 h)),
          (λ h. elim h [ inl p ↦ absurd (ground (arith, b, p.0, v.1 p.2)) | inr p ↦ rest.1 p ]),
        )
      ]

module _ {F : Type 0} (lib : Library F) (s : Schema F) (values context : Map String (Value F)) where
  -- The projection of values has an entry exactly where the values have it and a field of that key
  -- is visible.
  pub visible_values-Shows :
      (k : String) (v : Value F)
      → (lookup k (visible_values lib s values context) ≡ some v) ↔ (
          (lookup k values ≡ some v)
          × Some (Shows lib (merged_condition_values values context) k) (fields_of s.groups))
  unfolding visible_values lookup
  visible_values-Shows k v =
      let cv = merged_condition_values values context in
      let fields = fields_of s.groups in
      let read = lookup-visible_values_from lib cv k values fields [] in
      let shown = shows-Shows lib cv k fields in
      elim (Bool-cases (shows lib cv k fields)) [
        | inl b ↦ elim (Option-cases (lookup k values)) [
          | inl e ↦
              (λ h. absurd (ground (arith, read, b, e, h)), λ h. absurd (ground (arith, e, h.0)))
          | inr (w, e) ↦ (
            λ h. (ground (arith, read, b, e, h), shown.0 b),
            λ h. ground (arith, read, b, e, h.0),
          )
        ]
        | inr b ↦
            (λ h. absurd (ground (arith, read, b, h)), λ h. absurd (ground (arith, b, shown.1 h.1)))
      ]

  -- The keys of secrets are exactly those of the visible secret fields.
  pub visible_secret_keys-ShowsSecret :
      (k : String)
      → Some (λ key. key ≡ k) (visible_secret_keys lib s values context)
        ↔ Some (ShowsSecret lib (merged_condition_values values context) k) (fields_of s.groups)
  unfolding visible_secret_keys
  visible_secret_keys-ShowsSecret k =
      visible_secret_keys_from-ShowsSecret lib (merged_condition_values values context) k
        (fields_of s.groups)
