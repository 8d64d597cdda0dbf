-- ===== src/Store/Audit.antt =====
-- internal/store/memory.go, memAuditStore: the audit trail, the oldest entry first. Of an entry the
-- fields that the filters read are kept, and its id.
use shellcn.Prelude.{
  ℕ, zero, suc, ◌+◌, ◌≡◌, refl, ap, ◌∙◌, String, Bool, not, ◌&&◌, ◌||◌, List, [], ◌∷◌, ◌++◌, arith,
  ltb, leb, ◌==◌, string_eq, nat_eq, if◌then◌else◌, length,
}

-- internal/models/audit.go
pub record AuditEntry : Type 0 where
  pub id : String
  pub time : ℕ
  pub user_id : String
  pub connection_id : String

-- internal/store/store.go. A negative limit or offset counts as zero.
pub record AuditFilter : Type 0 where
  pub user_id : String
  pub connection_id : String
  pub limit : ℕ
  pub offset : ℕ

unfoldable pub append : AuditEntry → List AuditEntry → List AuditEntry
append e entries = entries ++ (e ∷ [])

unfoldable pub matches : AuditEntry → AuditFilter → Bool
matches e f =
    (f.user_id == "" || e.user_id == f.user_id)
    && (f.connection_id == "" || e.connection_id == f.connection_id)

abbrev pub reverse_onto : List AuditEntry → List AuditEntry → List AuditEntry
reverse_onto [] out = out
reverse_onto (e ∷ entries) out = reverse_onto entries (e ∷ out)

-- The loop of `List` from an entry on, with how many are skipped and taken so far.
unfoldable pub list_from : AuditFilter → ℕ → ℕ → List AuditEntry → List AuditEntry
list_from f skipped taken [] = []
list_from f skipped taken (e ∷ entries) =
    let unmatched = list_from f skipped taken entries in
    let passed = list_from f (skipped + 1) taken entries in
    let more = list_from f skipped (taken + 1) entries in
    if not (matches e f)
    then unmatched
    else if ltb skipped f.offset
    then passed
    else if ltb 0 f.limit && leb f.limit (taken + 1)
    then e ∷ []
    else e ∷ more

unfoldable pub list : AuditFilter → List AuditEntry → List AuditEntry
unfolding list_from
list f entries = list_from f 0 0 (reverse_onto entries [])

unfoldable pub count : AuditFilter → List AuditEntry → ℕ
count f [] = 0
count f (e ∷ entries) = (if matches e f then 1 else 0) + count f entries

unfoldable pub delete_before : ℕ → List AuditEntry → List AuditEntry × ℕ
delete_before before [] = ([], 0)
delete_before before (e ∷ entries) =
    let (kept, removed) = delete_before before entries in
    if ltb e.time before then (kept, suc removed) else (e ∷ kept, removed)

-- What the filter lets through.
abbrev pub matching : AuditFilter → List AuditEntry → List AuditEntry
matching f [] = []
matching f (e ∷ entries) = let rest = matching f entries in if matches e f then e ∷ rest else rest

abbrev pub drop : ℕ → List AuditEntry → List AuditEntry
drop zero entries = entries
drop (suc n) [] = []
drop (suc n) (e ∷ entries) = drop n entries

abbrev pub take : ℕ → List AuditEntry → List AuditEntry
take zero entries = []
take (suc n) [] = []
take (suc n) (e ∷ entries) = e ∷ take n entries

-- A limit of zero is none.
abbrev pub limited : ℕ → List AuditEntry → List AuditEntry
limited zero entries = entries
limited (suc n) entries = take (suc n) entries

limited_nil : (n : ℕ) → [] ≡ limited n []
limited_nil zero = refl
limited_nil (suc n) = refl

-- Once the offset is passed, with a limit: `left` more are taken.
list_from-taken :
    (f : AuditFilter) (left taken : ℕ) (entries : List AuditEntry)
    → f.limit ≡ taken + suc left
    → list_from f f.offset taken entries ≡ take (suc left) (matching f entries)
unfolding list_from
list_from-taken f left taken [] h = refl
list_from-taken f zero taken (e ∷ entries) h =
    ground (arith, list_from-taken f zero taken entries h)
list_from-taken f (suc left) taken (e ∷ entries) h = ground (
  arith,
  list_from-taken f (suc left) taken entries h,
  list_from-taken f left (taken + 1) entries (omega (arith, h)),
)

list_from-unlimited :
    (f : AuditFilter) (taken : ℕ) (entries : List AuditEntry)
    → f.limit ≡ 0
    → list_from f f.offset taken entries ≡ matching f entries
unfolding list_from
list_from-unlimited f taken [] h = refl
list_from-unlimited f taken (e ∷ entries) h =
    ground
      (arith, list_from-unlimited f taken entries h, list_from-unlimited f (taken + 1) entries h)

list_from-limited :
    (f : AuditFilter) (limit : ℕ) (entries : List AuditEntry)
    → f.limit ≡ limit
    → list_from f f.offset 0 entries ≡ limited limit (matching f entries)
list_from-limited f zero entries h = list_from-unlimited f 0 entries h
list_from-limited f (suc n) entries h = list_from-taken f n 0 entries (omega (arith, h))

list_from-skipped :
    (f : AuditFilter) (left skipped : ℕ) (entries : List AuditEntry)
    → f.offset ≡ skipped + left
    → list_from f skipped 0 entries ≡ limited f.limit (drop left (matching f entries))
unfolding list_from
list_from-skipped f zero skipped entries h =
    let same : skipped ≡ f.offset = omega (arith, h) in
    ap (λ (n : ℕ). list_from f n 0 entries) same ∙ list_from-limited f f.limit entries refl
list_from-skipped f (suc left) skipped [] h = limited_nil f.limit
list_from-skipped f (suc left) skipped (e ∷ entries) h = ground (
  arith,
  list_from-skipped f (suc left) skipped entries h,
  list_from-skipped f left (skipped + 1) entries (omega (arith, h)),
)

-- List gives the matching entries, the newest first, without the first ones up to the offset and no
-- more than the limit, where a limit of zero is none.
pub list-matching :
    (f : AuditFilter) (entries : List AuditEntry)
    → list f entries ≡ limited f.limit (drop f.offset (matching f (reverse_onto entries [])))
unfolding list
list-matching f entries = list_from-skipped f f.offset 0 (reverse_onto entries []) (omega arith)

matching-reverse_onto :
    (f : AuditFilter) (entries out : List AuditEntry)
    → count f (reverse_onto entries out) ≡ count f entries + count f out
unfolding count
matching-reverse_onto f [] out = omega arith
matching-reverse_onto f (e ∷ entries) out =
    ground (arith, matching-reverse_onto f entries (e ∷ out))

count-matching :
    (f : AuditFilter) (entries : List AuditEntry) → length (matching f entries) ≡ count f entries
unfolding count
count-matching f [] = refl
count-matching f (e ∷ entries) = ground (arith, count-matching f entries)

list_all :
    (f : AuditFilter) (entries : List AuditEntry)
    → f.limit ≡ 0
    → f.offset ≡ 0
    → list f entries ≡ matching f (reverse_onto entries [])
list_all f entries l o = list-matching f entries ∙ rw (l, o) refl

-- Count is the number of entries that List gives under the same filter without limit and offset.
pub count-list :
    (f : AuditFilter) (entries : List AuditEntry)
    → f.limit ≡ 0
    → f.offset ≡ 0
    → length (list f entries) ≡ count f entries
unfolding count
count-list f entries l o =
    ap (λ (es : List AuditEntry). length es) (list_all f entries l o)
    ∙ (count-matching f (reverse_onto entries [])
        ∙ omega (arith, matching-reverse_onto f entries []))

-- The entries that DeleteBefore keeps and the number it gives add up to the entries before.
pub delete_before-length :
    (before : ℕ) (entries : List AuditEntry)
    → let (kept, removed) = delete_before before entries in length kept + removed ≡ length entries
unfolding delete_before
delete_before-length before [] = refl
delete_before-length before (e ∷ entries) = ground (arith, delete_before-length before entries)
