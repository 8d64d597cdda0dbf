-- ===== src/Service/Folders/Created.antt =====
-- What CreateFolder makes of a request.
use shellcn.Prelude.{
  ℕ, ◌≡◌, ◌≢◌, refl, ap, ◌∙◌, inl, inr, ◌⊎◌, String, Bool, true, false, not, Option, none, some,
  arith, ◌==◌, string_eq, if◌then◌else◌, Option-cases, Bool-cases, if_elim,
}
use mathlib.Core.Path.{subst}
use shellcn.Prelude.Map.{lookup, insert}
use shellcn.Service.Folders.Ranks.{Before, IsLast, next_folder_order_lem}
use shellcn.Service.Folders.Listed.{
  SomeOf, EachOf, SomeOf-list_by_user, EachOf-list_by_user, folder_exists-SomeIn,
}
use shellcn.Prelude.Distinct.{member}
use shellcn.Service.Folders.{
  ConnectionFolder, FolderStore, create, create_over, list_by_user, FolderInput, ok, folder_colors,
  default_folder_color, resolve_folder_color, folder_exists, next_folder_order, min_int, stored,
  new_folder, create_colored, create_folder,
}

created_lem :
    (f g : ConnectionFolder) (m : FolderStore)
    → (stored f (create f m)).1 ≡ ok g
    → (g ≡ f) × ((stored f (create f m)).0 ≡ insert f.id f m) × (lookup f.id m ≡ none)
unfolding stored create create_over
created_lem f g m h = elim (Option-cases (lookup f.id m)) [
  | inl e ↦ (ground (arith, e, h), ground (arith, e), e)
  | inr (x, e) ↦ absurd (ground (arith, e, h))
]

not-false : (b : Bool) → not b ≡ false → b ≡ true
not-false true h = refl
not-false false h = absurd (cc)

-- A color that was resolved is a known one.
abbrev Known : Option String → Type 0
Known none = Unit
Known (some color) = member color folder_colors ≡ true

resolve_folder_color-Known :
    (trim : String → String) (color : String) → Known (resolve_folder_color trim color)
unfolding resolve_folder_color
resolve_folder_color-Known trim color =
    if_elim Known (trim color == "") (some default_folder_color)
      (if not (member (trim color) folder_colors) then none else some (trim color)) (λ e. refl)
      (λ e.
        if_elim Known (not (member (trim color) folder_colors)) none (some (trim color)) (λ n. tt)
          (λ n. not-false (member (trim color) folder_colors) n))

create_colored_lem :
    (user_id : String) (i : FolderInput) (name id : String) (now : ℕ) (m : FolderStore)
    (color : String) (f : ConnectionFolder)
    → (create_colored user_id i name id now m (some color)).1 ≡ ok f
    → (f ≡ new_folder user_id i name color id now m)
      × ((i.parent_id ≡ "") ⊎ (folder_exists (list_by_user user_id m) i.parent_id ≡ true))
      × ((create_colored user_id i name id now m (some color)).0 ≡ insert id f m)
      × (lookup id m ≡ none)
unfolding create_colored
create_colored_lem user_id i name id now m color f h =
    let g = new_folder user_id i name color id now m in
    elim (Bool-cases (i.parent_id == "")) [
      | inl p ↦
          let (e, x, y) = created_lem g f m (ground (arith, p, h)) in
          (e, inl ((string_eq.same_iff i.parent_id "").0 p), rw e (ground (arith, p, x)), y)
      | inr p ↦ elim (Bool-cases (folder_exists (list_by_user user_id m) i.parent_id)) [
        | inl q ↦
            let (e, x, y) = created_lem g f m (ground (arith, p, q, h)) in
            (e, inr q, rw e (ground (arith, p, q, x)), y)
        | inr q ↦ absurd (ground (arith, p, q, h))
      ]
    ]

parent_stands :
    (user_id parent_id : String) (m : FolderStore)
    → (parent_id ≡ "") ⊎ (folder_exists (list_by_user user_id m) parent_id ≡ true)
    → (parent_id ≡ "") ⊎ SomeOf user_id (λ g. g.id ≡ parent_id) m
parent_stands user_id parent_id m (inl e) = inl e
parent_stands user_id parent_id m (inr h) = inr (
    SomeOf-list_by_user (λ g. g.id ≡ parent_id) user_id m
      (folder_exists-SomeIn (list_by_user user_id m) parent_id h))

next_order_stands :
    (user_id parent_id : String) (m : FolderStore)
    → let order = next_folder_order (list_by_user user_id m) parent_id in
      EachOf user_id (Before parent_id order) m
      ⊎ ((order ≡ min_int) × SomeOf user_id (IsLast parent_id) m)
next_order_stands user_id parent_id m =
    let order = next_folder_order (list_by_user user_id m) parent_id in
    elim (next_folder_order_lem (list_by_user user_id m) parent_id) [
      | inl h ↦ inl (EachOf-list_by_user (Before parent_id order) user_id m h)
      | inr h ↦ inr (h.0, SomeOf-list_by_user (IsLast parent_id) user_id m h.1)
    ]

pub create_folder_lem :
    (trim : String → String) (user_id : String) (i : FolderInput) (id : String) (now : ℕ)
    (m : FolderStore) (f : ConnectionFolder)
    → (create_folder trim user_id i id now m).1 ≡ ok f
    → (f.user_id ≡ user_id)
      × (f.name ≢ "")
      × (member f.color folder_colors ≡ true)
      × ((f.parent_id ≡ "") ⊎ SomeOf user_id (λ g. g.id ≡ f.parent_id) m)
      × (EachOf user_id (Before f.parent_id f.sort_order) m
          ⊎ ((f.sort_order ≡ min_int) × SomeOf user_id (IsLast f.parent_id) m))
      × (lookup id m ≡ none)
      × ((create_folder trim user_id i id now m).0 ≡ insert id f m)
unfolding create_folder create_colored
create_folder_lem trim user_id i id now m f h = elim (Bool-cases (trim i.name == "")) [
  | inl e ↦ absurd (ground (arith, e, h))
  | inr e ↦ elim (Option-cases (resolve_folder_color trim i.color)) [
    | inl c ↦ absurd (ground (arith, e, c, h))
    | inr (color, c) ↦
        let (g, p, x, y) =
          create_colored_lem user_id i (trim i.name) id now m color f (ground (arith, e, c, h)) in
        let known = subst Known c (resolve_folder_color-Known trim i.color) in
        rw g (
          refl,
          λ n. absurd (cc (e, (string_eq.same_iff (trim i.name) "").1 n)),
          known,
          parent_stands user_id i.parent_id m p,
          next_order_stands user_id i.parent_id m,
          y,
          rw (create_folder, e, c) (x ∙ ap (λ (t : ConnectionFolder). insert id t m) g),
        )
  ]
]
