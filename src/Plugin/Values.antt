-- ===== src/Plugin/Values.antt =====
-- sdk/plugin/context.go: values of type `any`, by their dynamic type, and how they are read. The
-- packages fmt, strings, strconv and regexp, and Go's float64, are the fields of a `Library`.
use shellcn.Prelude.{
  String, Bool, true, false, List, [], ◌∷◌, map, Option, none, some, ◌==◌, string_eq, if◌then◌else◌,
  ◌||◌,
}
use shellcn.Prelude.Int.{ℤ}
use shellcn.Prelude.Map.{Map}

-- `single` is a float32, by the float64 that it widens to.
mutual
  pub data Value (F : Type 0) : Type 0 where
    null : Value F
    text : String → Value F
    bool : Bool → Value F
    double single : F → Value F
    int int64 : ℤ → Value F
    json_number : String → Value F
    any_list : Values F → Value F
    texts : List String → Value F
    ints : List ℤ → Value F
    doubles : List F → Value F
    object : Entries F → Value F

  pub data Values (F : Type 0) : Type 0 where
    no_values : Values F
    value_then : Value F → Values F → Values F

  pub data Entries (F : Type 0) : Type 0 where
    no_entries : Entries F
    entry_then : String → Value F → Entries F → Entries F

-- What the code calls of the Go library: fmt.Sprint, strings.TrimSpace, strings.Contains,
-- strings.Split at ".", len of a string, strconv.ParseFloat, regexp.Compile with MatchString, and
-- the conversion and the comparisons of float64.
pub record Library (F : Type 0) : Type 0 where
  pub sprint : Value F → String
  pub trim : String → String
  pub contains_text : String → String → Bool
  pub split_path : String → List String
  pub byte_length : String → ℤ
  pub parse_float : String → Option F
  pub compile : String → Option (String → Bool)
  pub of_int : ℤ → F
  pub less : F → F → Bool
  pub at_most : F → F → Bool

pub items : {F : Type 0} → Values F → List (Value F)
items no_values = []
items (value_then v rest) = v ∷ items rest

unfoldable pub entries : {F : Type 0} → Map String (Value F) → Entries F
entries [] = no_entries
entries ((k, v) ∷ m) = entry_then k v (entries m)

-- `m[seg]`, for a missing key nil.
unfoldable pub entry : {F : Type 0} → String → Entries F → Value F
entry seg no_entries = null
entry seg (entry_then k v m) = if k == seg then v else entry seg m

module _ {F : Type 0} (lib : Library F) where
  unfoldable pub number_value : Value F → Option F
  number_value (double x) = some x
  number_value (single x) = some x
  number_value (int n) = some (lib.of_int n)
  number_value (int64 n) = some (lib.of_int n)
  number_value (json_number s) = lib.parse_float s
  number_value null = none
  number_value (text s) = none
  number_value (bool b) = none
  number_value (any_list l) = none
  number_value (texts l) = none
  number_value (ints l) = none
  number_value (doubles l) = none
  number_value (object m) = none

  pub parse_trimmed : Value F → Option F
  parse_trimmed (text s) = lib.parse_float (lib.trim s)
  parse_trimmed v = none

  abbrev pub first_number : Option F → Option F → Option F
  first_number (some x) second = some x
  first_number none second = second

  unfoldable pub to_number : Value F → Option F
  unfolding parse_trimmed
  to_number v = first_number (number_value v) (parse_trimmed v)

  unfoldable pub as_list : Value F → List (Value F)
  unfolding items
  as_list (any_list l) = items l
  as_list (texts l) = map text l
  as_list (ints l) = map int l
  as_list (doubles l) = map double l
  as_list v = v ∷ []

  -- The loops that compare the printed items of a list.
  unfoldable pub prints_among : Value F → List (Value F) → Bool
  prints_among v [] = false
  prints_among v (item ∷ rest) = lib.sprint v == lib.sprint item || prints_among v rest

  unfoldable pub contains_value : Value F → Value F → Bool
  unfolding items
  contains_value (any_list l) want = prints_among want (items l)
  contains_value v want = lib.contains_text (lib.sprint v) (lib.sprint want)

  abbrev pub is_no_values : Values F → Bool
  is_no_values no_values = true
  is_no_values (value_then v rest) = false

  -- `emptyValue` of a value that is there.
  unfoldable pub empty_value : Value F → Bool
  empty_value null = true
  empty_value (text s) = lib.trim s == ""
  empty_value (any_list l) = is_no_values l
  empty_value v = false

  -- `emptyValue(value, !exists)` of a map's value.
  abbrev pub empty_entry : Option (Value F) → Bool
  empty_entry none = true
  empty_entry (some v) = empty_value v
