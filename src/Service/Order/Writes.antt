-- ===== src/Service/Order/Writes.antt =====
-- What the writes of an order leave.
use shellcn.Prelude.{
  ℕ, ◌≡◌, ◌≢◌, refl, inl, inr, String, List, [], ◌∷◌, Option, none, some, ◌==◌, string_eq, arith,
  Option-cases, Bool-cases,
}
use shellcn.Prelude.Map.{Map, lookup, insert, lookup-insert, IsMap, insert-IsMap}
use shellcn.Service.Folders.{ConnectionFolder, FolderStore, update, update_over}
use shellcn.Service.Order.{FolderOrderInput, OrderRefusal, folder_of, moved, update_from}
use shellcn.Service.Order.Rows.{Keyed}
use shellcn.Service.Order.Checks.{asked}

-- The folders that the list names are rows of the store.
abbrev pub AllStored : FolderStore → List FolderOrderInput → Type 0
AllStored m [] = Unit
AllStored m (i ∷ items) = (lookup i.folder_id m ≢ none) × AllStored m items

pub AllStored-insert :
    (k : String) (f : ConnectionFolder) (m : FolderStore) (items : List FolderOrderInput)
    → AllStored m items
    → AllStored (insert k f m) items
AllStored-insert k f m [] h = tt
AllStored-insert k f m (i ∷ items) h = (
  (λ e. h.0 (ground (arith, e, lookup-insert k i.folder_id f m))),
  AllStored-insert k f m items h.1,
)

pub Keyed-insert :
    (k : String) (f : ConnectionFolder) (m : FolderStore)
    → f.id ≡ k
    → Keyed m
    → Keyed (insert k f m)
unfolding insert
Keyed-insert k f [] e h = (e, tt)
Keyed-insert k f ((j, g) ∷ m) e h = ground (arith, e, h.0, Keyed-insert k f m e h.1)

pub update_present :
    (k : String) (f old : ConnectionFolder) (m : FolderStore)
    → f.id ≡ k
    → lookup k m ≡ some old
    → update f m ≡ (insert k f m, none)
unfolding update update_over
update_present k f old m e g = rw (e, g) refl

module _ (by_id : Map String ConnectionFolder) (now : ℕ) where
  abbrev pub written :
      Option FolderOrderInput → String → Option ConnectionFolder → Option ConnectionFolder
  written none a row = row
  written (some i) a row = some (moved now i (folder_of (lookup a by_id)))

  -- What a run of the writes leaves of the store before it.
  pub record Written (items : List FolderOrderInput) (m : FolderStore)
      (r : FolderStore × Option OrderRefusal) : Type 0 where
    pub no_error : r.1 ≡ none
    pub is_map : IsMap r.0
    pub keyed : Keyed r.0
    pub rows : (a : String) → lookup a r.0 ≡ written (asked items a) a (lookup a m)

  abbrev pub AllKeyed : List FolderOrderInput → Type 0
  AllKeyed [] = Unit
  AllKeyed (i ∷ items) = ((folder_of (lookup i.folder_id by_id)).id ≡ i.folder_id) × AllKeyed items

  pub Written-cons :
      (i : FolderOrderInput) (items : List FolderOrderInput) (m : FolderStore)
      (r : FolderStore × Option OrderRefusal)
      → (folder_of (lookup i.folder_id by_id)).id ≡ i.folder_id
      → Written items (insert i.folder_id (moved now i (folder_of (lookup i.folder_id by_id))) m) r
      → Written (i ∷ items) m r
  unfolding asked
  Written-cons i items m r k h = record {
    no_error = h.no_error;
    is_map = h.is_map;
    keyed = h.keyed;
    rows = λ a. elim (Option-cases (asked items a)) [
      | inl e ↦ elim (Bool-cases (i.folder_id == a)) [
        | inl b ↦ ground (
          arith,
          h.rows a,
          e,
          b,
          (string_eq.same_iff i.folder_id a).0 b,
          lookup-insert i.folder_id a (moved now i (folder_of (lookup i.folder_id by_id))) m,
        )
        | inr b ↦ ground (
          arith,
          h.rows a,
          e,
          b,
          lookup-insert i.folder_id a (moved now i (folder_of (lookup i.folder_id by_id))) m,
        )
      ]
      | inr (j, e) ↦ ground (arith, h.rows a, e)
    ];
  }

  pub update_from_lem :
      (items : List FolderOrderInput) (m : FolderStore)
      → AllKeyed items
      → AllStored m items
      → IsMap m
      → Keyed m
      → Written items m (update_from by_id now items m)
  unfolding update_from asked
  update_from_lem [] m all st d k = record {
    no_error = refl;
    is_map = d;
    keyed = k;
    rows = λ a. refl;
  }
  update_from_lem (i ∷ items) m all st d k =
      let f = moved now i (folder_of (lookup i.folder_id by_id)) in
      elim (Option-cases (lookup i.folder_id m)) [
        | inl e ↦ absurd (st.0 e)
        | inr (old, e) ↦ rw (update_present i.folder_id f old m all.0 e) (
            Written-cons i items m (update_from by_id now items (insert i.folder_id f m)) all.0 (
              update_from_lem items (insert i.folder_id f m) all.1
                (AllStored-insert i.folder_id f m items st.1) (insert-IsMap i.folder_id f m d)
                (Keyed-insert i.folder_id f m all.0 k)))
      ]
