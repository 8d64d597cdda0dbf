-- ===== src/Service/Folders/Listed.antt =====
-- What holds of the folders that are listed for a user holds of those of the user in the store.
use shellcn.Prelude.{
  ◌≡◌, ◌⊎◌, inl, inr, String, Bool, true, List, [], ◌∷◌, arith, ◌==◌, string_eq, if◌then◌else◌,
  Bool-cases, All,
}
use mathlib.Core.Path.{subst}
use shellcn.Prelude.Map.Each.{Each}
use shellcn.Service.Folders.{ConnectionFolder, FolderStore, list_by_user, folder_exists}

abbrev pub SomeIn : (ConnectionFolder → Type 0) → List ConnectionFolder → Type 0
SomeIn P [] = ⊥
SomeIn P (f ∷ folders) = P f ⊎ SomeIn P folders

-- Some folder of the user in the store, and every one.
abbrev pub SomeOf : String → (ConnectionFolder → Type 0) → FolderStore → Type 0
SomeOf user_id P [] = ⊥
SomeOf user_id P ((k, f) ∷ m) = ((f.user_id ≡ user_id) × P f) ⊎ SomeOf user_id P m

abbrev pub EachOf : String → (ConnectionFolder → Type 0) → FolderStore → Type 0
EachOf user_id P m = Each (λ k f. f.user_id ≡ user_id → P f) m

abbrev kept : Bool → ConnectionFolder → List ConnectionFolder → List ConnectionFolder
kept t f rest = if t then f ∷ rest else rest

pub SomeOf-list_by_user :
    (P : ConnectionFolder → Type 0) (user_id : String) (m : FolderStore)
    → SomeIn P (list_by_user user_id m)
    → SomeOf user_id P m
unfolding list_by_user
SomeOf-list_by_user P user_id [] h = h
SomeOf-list_by_user P user_id ((k, f) ∷ m) h = elim (Bool-cases (f.user_id == user_id)) [
  | inr b ↦
      let here : SomeIn P (list_by_user user_id m) =
        subst (λ (t : Bool). SomeIn P (kept t f (list_by_user user_id m))) b h in
      inr (SomeOf-list_by_user P user_id m here)
  | inl b ↦
      let here : P f ⊎ SomeIn P (list_by_user user_id m) =
        subst (λ (t : Bool). SomeIn P (kept t f (list_by_user user_id m))) b h in
      elim here [
        | inl at ↦ inl ((string_eq.same_iff f.user_id user_id).0 b, at)
        | inr below ↦ inr (SomeOf-list_by_user P user_id m below)
      ]
]

pub EachOf-list_by_user :
    (P : ConnectionFolder → Type 0) (user_id : String) (m : FolderStore)
    → All P (list_by_user user_id m)
    → EachOf user_id P m
unfolding list_by_user
EachOf-list_by_user P user_id [] h = tt
EachOf-list_by_user P user_id ((k, f) ∷ m) h = elim (Bool-cases (f.user_id == user_id)) [
  | inr b ↦
      let rest : All P (list_by_user user_id m) =
        subst (λ (t : Bool). All P (kept t f (list_by_user user_id m))) b h in
      (
        λ e. absurd (cc (b, (string_eq.same_iff f.user_id user_id).1 e)),
        EachOf-list_by_user P user_id m rest,
      )
  | inl b ↦
      let both : P f × All P (list_by_user user_id m) =
        subst (λ (t : Bool). All P (kept t f (list_by_user user_id m))) b h in
      (λ e. both.0, EachOf-list_by_user P user_id m both.1)
]

pub folder_exists-SomeIn :
    (folders : List ConnectionFolder) (id : String)
    → folder_exists folders id ≡ true
    → SomeIn (λ f. f.id ≡ id) folders
unfolding folder_exists
folder_exists-SomeIn [] id h = absurd (cc)
folder_exists-SomeIn (f ∷ folders) id h = elim (Bool-cases (f.id == id)) [
  | inl b ↦ inl ((string_eq.same_iff f.id id).0 b)
  | inr b ↦ inr (folder_exists-SomeIn folders id (ground (arith, b, h)))
]
