-- ===== src/Service/Cycle/Search.antt =====
-- The search ends, and it finds exactly the cycles.
use shellcn.Prelude.{
  ℕ, zero, suc, ◌+◌, ◌≤◌, ◌<◌, ◌≡◌, ◌≢◌, refl, ◌∙◌, inl, inr, ◌⊎◌, ◌↔◌, String, Bool, true, false,
  [], ◌∷◌, none, some, arith, ◌==◌, string_eq, if◌then◌else◌, length, Bool-cases, Option-cases,
}
use mathlib.Core.Path.{subst}
use shellcn.Prelude.Map.{Map, lookup, insert, lookup-insert}
use shellcn.Service.Cycle.{flag, Marks, parent, visit_folder, search_from, has_folder_cycle}
use shellcn.Service.Cycle.Rooted.{
  not_empty, Up, here, Cycle, Rooted, extend, Cycle-Rooted, Rooted-outside,
}

module _ (parents : Map String String) where
  -- The keys that are not on the current path.
  unfoldable free : Map String String → Map String Bool → ℕ
  free [] m = 0
  free ((k, p) ∷ rest) m = (if flag k m then 0 else 1) + free rest m

  free-insert :
      (keys : Map String String) (id : String) (m : Map String Bool)
      → free keys (insert id true m) ≤ free keys m
  unfolding free
  free-insert [] id m = omega arith
  free-insert ((k, p) ∷ rest) id m =
      ground (arith, free-insert rest id m, lookup-insert id k true m)

  free-insert_lt :
      (keys : Map String String) (id p : String) (m : Map String Bool)
      → lookup id keys ≡ some p
      → flag id m ≡ false
      → free keys (insert id true m) < free keys m
  unfolding free lookup
  free-insert_lt [] id p m e f = absurd (cc)
  free-insert_lt ((k, q) ∷ rest) id p m e f = ground (
    arith,
    free-insert rest id m,
    free-insert_lt rest id p m,
    lookup-insert id k true m,
    string_eq.same_iff k id,
    string_eq.same_iff id k,
    e,
    f,
  )

  free-le : (keys : Map String String) (m : Map String Bool) → free keys m ≤ length keys
  unfolding free
  free-le [] m = omega arith
  free-le ((k, p) ∷ rest) m = ground (arith, free-le rest m)

  -- What holds of the marks while `id` is visited.
  record OnPath (id : String) (s : Marks) : Type 0 where
    rooted : (a : String) → flag a s.visited ≡ true → Rooted parents a
    path : (a : String) → flag a s.visiting ≡ true → (a ≢ "") × Up parents (parent parents a) id

  -- What a visit_folder says, and leaves.
  abbrev Visited : String → Marks → Marks × Bool → Type 0
  Visited id s (s', true) = Cycle parents
  Visited id s (s', false) =
      Rooted parents id
      × ((a : String) → flag a s'.visited ≡ true → Rooted parents a)
      × ((a : String) → flag a s'.visiting ≡ flag a s.visiting)

  OnPath-mark :
      (id : String) (s : Marks)
      → id ≢ ""
      → OnPath id s
      → OnPath (parent parents id) (record s { visiting = insert id true s.visiting })
  OnPath-mark id s n h = record {
    rooted = h.rooted;
    path = λ a e. elim (Bool-cases (id == a)) [
      | inl b ↦
          let same = (string_eq.same_iff id a).0 b in
          subst (λ x. (x ≢ "") × Up parents (parent parents x) (parent parents id)) same
            (n, here (parent parents id))
      | inr b ↦
          let (k, u) = h.path a (ground (arith, lookup-insert id a true s.visiting, b, e)) in
          (k, extend parents (parent parents a) id u n)
    ];
  }

  -- What a visit_folder gives: an answer that is right, within the fuel.
  abbrev Answers : ℕ → String → Marks → Type 0
  Answers fuel id s =
      (r : Marks × Bool) × (visit_folder parents fuel id s ≡ some r) × Visited id s r

  visit_folder-empty :
      (fuel : ℕ) (s : Marks) → visit_folder parents (suc fuel) "" s ≡ some (s, false)
  unfolding visit_folder
  visit_folder-empty fuel s = ground (arith, string_eq.same_iff "" "")

  Visited-leave :
      (id : String) (s s' : Marks)
      → id ≢ ""
      → flag id s.visiting ≡ false
      → Visited (parent parents id) (record s { visiting = insert id true s.visiting }) (s', false)
      → Visited id s (
        record { visiting = insert id false s'.visiting; visited = insert id true s'.visited },
        false,
      )
  Visited-leave id s s' n off ((d, up), rooted, same) = (
    (suc d, (n, up)),
    λ a e. elim (Bool-cases (id == a)) [
      | inl b ↦ subst (Rooted parents) ((string_eq.same_iff id a).0 b) (suc d, (n, up))
      | inr b ↦ rooted a (ground (arith, lookup-insert id a true s'.visited, b, e))
    ],
    λ a. elim (Bool-cases (id == a)) [
      | inl b ↦
          let e = (string_eq.same_iff id a).0 b in
          ground (
            arith,
            lookup-insert id a false s'.visiting,
            b,
            subst (λ x. flag x s.visiting ≡ false) e off,
          )
      | inr b ↦ ground (
        arith,
        lookup-insert id a false s'.visiting,
        lookup-insert id a true s.visiting,
        b,
        same a,
      )
    ],
  )

  Answers-leave :
      (fuel : ℕ) (id : String) (s : Marks)
      → (id == "") ≡ false
      → id ≢ ""
      → flag id s.visited ≡ false
      → flag id s.visiting ≡ false
      → Answers fuel (parent parents id) (record s { visiting = insert id true s.visiting })
      → Answers (suc fuel) id s
  unfolding visit_folder
  Answers-leave fuel id s n new seen off ((s', true), e, done) =
      ((s', true), rw (n, seen, off, e) refl, done)
  Answers-leave fuel id s n new seen off ((s', false), e, done) = (
    (record { visiting = insert id false s'.visiting; visited = insert id true s'.visited }, false),
    rw (n, seen, off, e) refl,
    Visited-leave id s s' new off done,
  )

  -- A folder that is not a key has no parent: the search ends there.
  Answers-outside :
      (fuel : ℕ) (id : String) (s : Marks)
      → lookup id parents ≡ none
      → 1 ≤ fuel
      → ((a : String) → flag a s.visited ≡ true → Rooted parents a)
      → Answers fuel (parent parents id) s
  Answers-outside zero id s e enough rooted = absurd (omega arith)
  Answers-outside (suc fuel) id s e enough rooted =
      rw e ((s, false), visit_folder-empty fuel s, ((0, refl), rooted, λ a. refl))

  visit_folder_lem :
      (fuel : ℕ) (id : String) (s : Marks)
      → OnPath id s
      → free parents s.visiting + 2 ≤ fuel
      → Answers fuel id s
  unfolding visit_folder
  visit_folder_lem zero id s h enough = absurd (omega arith)
  visit_folder_lem (suc fuel) id s h enough = elim (Bool-cases (id == "")) [
    | inl e ↦ ((s, false), rw e refl, ((0, (string_eq.same_iff id "").0 e), h.rooted, λ a. refl))
    | inr n ↦
        let new = not_empty id n in
        elim (Bool-cases (flag id s.visited)) [
          | inl seen ↦ ((s, false), rw (n, seen) refl, (h.rooted id seen, h.rooted, λ a. refl))
          | inr seen ↦ elim (Bool-cases (flag id s.visiting)) [
            | inl on ↦ ((s, true), rw (n, seen, on) refl, (id, (h.path id on).0, (h.path id on).1))
            | inr off ↦
                Answers-leave fuel id s n new seen off (elim (Option-cases (lookup id parents)) [
                  | inl e ↦
                      Answers-outside fuel id (record s { visiting = insert id true s.visiting }) e
                        (omega (arith, enough)) h.rooted
                  | inr (p, e) ↦
                      visit_folder_lem fuel (parent parents id)
                        (record s { visiting = insert id true s.visiting }) (OnPath-mark id s new h)
                        (omega (arith, free-insert_lt parents id p s.visiting e off, enough))
                ])
          ]
        ]
  ]

  -- What the loop over the keys says.
  abbrev Searched : Map String String → Bool → Type 0
  Searched keys true = Cycle parents
  Searched keys false = (a : String) → lookup a keys ≢ none → Rooted parents a

  Searched-cons :
      (keys : Map String String) (id p : String) (b : Bool)
      → Rooted parents id
      → Searched keys b
      → Searched ((id, p) ∷ keys) b
  unfolding lookup
  Searched-cons keys id p true up found = found
  Searched-cons keys id p false up all = λ a n. elim (Bool-cases (id == a)) [
    | inl e ↦ subst (Rooted parents) ((string_eq.same_iff id a).0 e) up
    | inr e ↦ all a (λ f. n (ground (arith, e, f)))
  ]

  -- The rest of the loop, from marks where no folder is on the path.
  abbrev Searches : ℕ → Map String String → Marks → Type 0
  Searches fuel keys s = (b : Bool) × (search_from parents fuel keys s ≡ some b) × Searched keys b

  Searches-cons :
      (fuel : ℕ) (id p : String) (keys : Map String String) (s : Marks)
      → ((a : String) → flag a s.visiting ≡ false)
      → Answers fuel id s
      → ((s' : Marks)
          → ((a : String) → flag a s'.visited ≡ true → Rooted parents a)
          → ((a : String) → flag a s'.visiting ≡ false)
          → Searches fuel keys s')
      → Searches fuel ((id, p) ∷ keys) s
  unfolding search_from
  Searches-cons fuel id p keys s off ((s', true), e, found) go = (true, rw e refl, found)
  Searches-cons fuel id p keys s off ((s', false), e, (up, rooted, same)) go =
      let (b, f, done) = go s' rooted (λ a. same a ∙ off a) in
      (b, rw (e, f) refl, Searched-cons keys id p b up done)

  search_from_lem :
      (fuel : ℕ) (keys : Map String String) (s : Marks)
      → length parents + 2 ≤ fuel
      → ((a : String) → flag a s.visited ≡ true → Rooted parents a)
      → ((a : String) → flag a s.visiting ≡ false)
      → Searches fuel keys s
  unfolding search_from lookup
  search_from_lem fuel [] s enough rooted off = (false, refl, λ a n. absurd (n refl))
  search_from_lem fuel ((id, p) ∷ keys) s enough rooted off =
      Searches-cons fuel id p keys s off
        (visit_folder_lem fuel id s
          (record { rooted = rooted; path = λ a e. absurd (ground (arith, off a, e)) })
          (omega (arith, free-le parents s.visiting, enough)))
        (λ s'. search_from_lem fuel keys s' enough)

  has_folder_cycle-Searches :
      Searches (length parents + 2) parents (record { visiting = []; visited = [] })
  unfolding lookup
  has_folder_cycle-Searches =
      search_from_lem (length parents + 2) parents (record { visiting = []; visited = [] })
        (omega arith) (λ a e. absurd (cc)) (λ a. refl)

  Decided : Type 0
  Decided =
      ((has_folder_cycle parents ≡ some true) × Cycle parents)
      ⊎ ((has_folder_cycle parents ≡ some false) × ((a : String) → Rooted parents a))

  Searches-Decided :
      Searches (length parents + 2) parents (record { visiting = []; visited = [] }) → Decided
  unfolding Decided has_folder_cycle
  Searches-Decided (true, e, found) = inl (e, found)
  Searches-Decided (false, e, all) = inr (
    e,
    λ a. elim (Option-cases (lookup a parents)) [
      | inl f ↦ Rooted-outside parents a f
      | inr (p, f) ↦ all a (λ g. cc)
    ],
  )

  -- The fuel is enough: the search answers for every map of parents, also one with cycles.
  pub has_folder_cycle_terminates : (b : Bool) × (has_folder_cycle parents ≡ some b)
  unfolding has_folder_cycle
  has_folder_cycle_terminates = (has_folder_cycle-Searches.0, has_folder_cycle-Searches.1)

  -- It says `true` exactly when a folder is above itself, and `false` exactly when every folder
  -- reaches the root along its parents.
  pub has_folder_cycle-Cycle :
      ((has_folder_cycle parents ≡ some true) ↔ Cycle parents)
      × ((has_folder_cycle parents ≡ some false) ↔ ((a : String) → Rooted parents a))
  unfolding Decided
  has_folder_cycle-Cycle = elim (Searches-Decided has_folder_cycle-Searches) [
    | inl (e, found) ↦
        ((λ _. found, λ _. e), (λ f. absurd (cc), λ all. absurd (Cycle-Rooted parents found all)))
    | inr (e, all) ↦
        ((λ f. absurd (cc), λ found. absurd (Cycle-Rooted parents found all)), (λ _. all, λ _. e))
  ]
