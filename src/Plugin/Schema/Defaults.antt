-- ===== src/Plugin/Schema/Defaults.antt =====
-- What a map that is copied over another reads as: the defaults of a schema, and the context of
-- conditions.
use shellcn.Prelude.{
  ◌≡◌, refl, inl, inr, String, not, ◌&&◌, List, [], ◌∷◌, Option, none, some, arith, if◌then◌else◌,
  ◌==◌, string_eq, Bool-cases, Option-cases,
}
use shellcn.Prelude.Map.{Map, lookup, insert, lookup-insert, IsMap}
use shellcn.Plugin.Values.{Value}
use shellcn.Plugin.Schema.{
  Field, Schema, is_null, fields_of, defaults_from, defaults, copy_over, values_with_defaults,
  merged_condition_values,
}

-- `v, ok := m[k]` of a map that stands over another.
abbrev pub over {ℓ} : {V : Type ℓ} → Option V → Option V → Option V
over (some v) below = some v
over none below = below

-- A copy over a map: the entries of the first hide those of the second.
lookup-copy_over :
    {F : Type 0} (k : String) (values out : Map String (Value F))
    → IsMap values
    → lookup k (copy_over values out) ≡ over (lookup k values) (lookup k out)
unfolding lookup copy_over
lookup-copy_over k [] out d = refl
lookup-copy_over k ((j, v) ∷ values) out d = elim (Bool-cases (j == k)) [
  | inl e ↦ ground (
    arith,
    e,
    (string_eq.same_iff j k).0 e,
    d.0,
    lookup-copy_over k values (insert j v out) d.1,
    lookup-insert j k v out,
  )
  | inr e ↦
      ground (arith, e, lookup-copy_over k values (insert j v out) d.1, lookup-insert j k v out)
]

-- The default that the loop keeps for a key: that of the last field which has one.
unfoldable pub default_of : {F : Type 0} → String → List (Field F) → Option (Value F)
default_of k [] = none
default_of k (f ∷ fields) =
    over (default_of k fields)
      (if f.key == k && not (is_null f.default_value) then some f.default_value else none)

lookup-defaults_from :
    {F : Type 0} (k : String) (fields : List (Field F)) (out : Map String (Value F))
    → lookup k (defaults_from fields out) ≡ over (default_of k fields) (lookup k out)
unfolding defaults_from default_of
lookup-defaults_from k [] out = refl
lookup-defaults_from k (f ∷ fields) out =
    let skipped = lookup-defaults_from k fields out in
    let put = lookup-defaults_from k fields (insert f.key f.default_value out) in
    elim (Option-cases (default_of k fields)) [
      | inl e ↦ ground (arith, e, skipped, put, lookup-insert f.key k f.default_value out)
      | inr (v, e) ↦ ground (arith, e, skipped, put)
    ]

-- A value that is given stands, and a missing one is the default of the last field of that key
-- which has one.
pub values_with_defaults_lem :
    {F : Type 0} (s : Schema F) (values : Map String (Value F)) (k : String)
    → IsMap values
    → lookup k (values_with_defaults s values)
      ≡ over (lookup k values) (default_of k (fields_of s.groups))
unfolding values_with_defaults lookup
values_with_defaults_lem s values k d = elim (Option-cases (default_of k (fields_of s.groups))) [
  | inl e ↦ ground (
    arith,
    e,
    lookup-copy_over k values (defaults s) d,
    lookup-defaults_from k (fields_of s.groups) [],
  )
  | inr (v, e) ↦ ground (
    arith,
    e,
    lookup-copy_over k values (defaults s) d,
    lookup-defaults_from k (fields_of s.groups) [],
  )
]

-- A condition reads the context first and then the values.
pub merged_condition_values_lem :
    {F : Type 0} (values context : Map String (Value F)) (k : String)
    → IsMap values
    → IsMap context
    → lookup k (merged_condition_values values context) ≡ over (lookup k context) (lookup k values)
unfolding merged_condition_values lookup
merged_condition_values_lem values [] k d e = refl
merged_condition_values_lem values (c ∷ context) k d e = elim (Option-cases (lookup k values)) [
  | inl f ↦ ground (
    arith,
    f,
    lookup-copy_over k (c ∷ context) (copy_over values []) e,
    lookup-copy_over k values [] d,
  )
  | inr (v, f) ↦ ground (
    arith,
    f,
    lookup-copy_over k (c ∷ context) (copy_over values []) e,
    lookup-copy_over k values [] d,
  )
]
