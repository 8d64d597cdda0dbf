-- ===== src/Live/Ownership.antt =====
-- The addresses of an instance: what is kept of a list, and that coding them loses nothing.
use shellcn.Prelude.{
  ◌≡◌, refl, ap, String, List, [], ◌∷◌, map, arith, string_eq, if_elim, ◌||◌, beq_refl,
}
use shellcn.Prelude.Distinct.{
  first_ones, NoRepeats, NoneIs, member, first_ones-NoRepeats, first_ones-NoneIs, first_ones_id,
}
use shellcn.Live.{
  is_blank, Outside, first_or, unique_non_empty, new_instance_ref_with_preferred, new_instance_ref,
  encode_internal_url_candidates, decode_internal_url_candidates, marshal_some, unmarshalled,
}

-- The list that a set of addresses is kept as: trimmed, none blank, none twice.
pub record IsCandidates (o : Outside) (urls : List String) : Type 0 where
  pub trimmed : map o.trim_space urls ≡ urls
  pub some_text : NoneIs is_blank urls
  pub once : NoRepeats urls

module _ (o : Outside) where
  trimmed-first_ones :
      (seen values : List String)
      → map o.trim_space (first_ones is_blank seen (map o.trim_space values))
        ≡ first_ones is_blank seen (map o.trim_space values)
  unfolding first_ones
  trimmed-first_ones seen [] = refl
  trimmed-first_ones seen (v ∷ values) =
      let u = o.trim_space v in
      let rest = first_ones is_blank (u ∷ seen) (map o.trim_space values) in
      if_elim (λ (l : List String). map o.trim_space l ≡ l) (is_blank u || member u seen)
        (first_ones is_blank seen (map o.trim_space values)) (u ∷ rest)
        (λ t. trimmed-first_ones seen values)
        (λ f. cc (o.trim_space_twice v, trimmed-first_ones (u ∷ seen) values))

  pub unique_non_empty-IsCandidates :
      (values : List String) → IsCandidates o (unique_non_empty o values)
  unfolding unique_non_empty
  unique_non_empty-IsCandidates values = record {
    trimmed = trimmed-first_ones [] values;
    some_text = first_ones-NoneIs is_blank [] (map o.trim_space values);
    once = first_ones-NoRepeats is_blank [] (map o.trim_space values);
  }

  pub unique_non_empty_id :
      (urls : List String) → IsCandidates o urls → unique_non_empty o urls ≡ urls
  unfolding unique_non_empty
  unique_non_empty_id urls c = rw c.trimmed (first_ones_id is_blank urls c.once c.some_text)

  decode-marshal_some :
      (urls : List String)
      → unique_non_empty o urls ≡ urls
      → decode_internal_url_candidates o (marshal_some o urls) ≡ urls
  unfolding decode_internal_url_candidates marshal_some unmarshalled
  decode-marshal_some [] e = rw o.unmarshal-empty refl
  decode-marshal_some (u ∷ urls) e = rw (o.unmarshal-marshal (u ∷ urls)) e

  pub decode-encode :
      (urls : List String)
      → IsCandidates o urls
      → decode_internal_url_candidates o (encode_internal_url_candidates o urls) ≡ urls
  unfolding encode_internal_url_candidates
  decode-encode urls c = let e = unique_non_empty_id urls c in rw e (decode-marshal_some urls e)

  -- Putting the first address in front once more changes nothing.
  first_again :
      (urls : List String)
      → IsCandidates o urls
      → unique_non_empty o (first_or "" urls ∷ urls) ≡ urls
  unfolding unique_non_empty first_ones
  first_again [] c = rw o.trim_space-empty refl
  first_again (u ∷ urls) c =
      let e = unique_non_empty_id (u ∷ urls) c in
      let t : o.trim_space u ≡ u = ground (arith, c.trimmed) in
      ground (arith, t, c.some_text.0, beq_refl u, e)

  first_or-first_or : (urls : List String) → first_or (first_or "" urls) urls ≡ first_or "" urls
  first_or-first_or [] = refl
  first_or-first_or (u ∷ urls) = refl

  same_candidates :
      (id : String) (urls : List String)
      → IsCandidates o urls
      → new_instance_ref_with_preferred o id (first_or "" urls) urls
        ≡ record { id = id; internal_url = first_or "" urls; candidates = urls }
  unfolding new_instance_ref_with_preferred
  same_candidates id urls c = rw (first_again urls c) (
      ap (λ (u : String). record { id = id; internal_url = u; candidates = urls })
        (first_or-first_or urls))

  -- An instance with the addresses of another, the first of them preferred, is that instance.
  pub same_instance :
      (id : String) (internal_urls : List String)
      → let a = new_instance_ref o id internal_urls in
        new_instance_ref_with_preferred o id a.internal_url
          (decode_internal_url_candidates o (encode_internal_url_candidates o a.candidates))
        ≡ a
  unfolding new_instance_ref new_instance_ref_with_preferred
  same_instance id internal_urls =
      let urls = unique_non_empty o ("" ∷ internal_urls) in
      let c = unique_non_empty-IsCandidates ("" ∷ internal_urls) in
      rw (decode-encode urls c) (same_candidates id urls c)
