-- ===== src/Value.antt =====
-- Go's `any`, `map[string]any` and `[]any`, as the SDK's payloads hold them. A map is an association
-- list in the order in which an iteration visits it; a map that Go leaves nil is `nil_map`.
pub mod Entries
pub mod Append
use duckbug_go.Base.{
  ℕ, String, str_eq, if◌then◌else◌, Bool, true, false, Option, none, some, List, [], ◌∷◌, ◌≡◌, ◌≢◌,
}
use duckbug_go.Base.Int.{ℤ}

-- `json.Number`: what its methods `Int64` and `Float64` make of it, or its text.
pub data JsonNumber : Type 0 where
  as_int : ℤ → JsonNumber
  as_float : ℕ → JsonNumber
  as_text : String → JsonNumber

mutual
  -- `float` is a floating point number, by its bits. `shown` is a value that the SDK reduces to a text:
  -- a `time.Time`, a `time.Duration`, an `error` or a `fmt.Stringer`. `other_map` and `other_list` are maps
  -- and sequences of any other element type. `opaque` is any other Go value.
  pub data Value : Type 0 where
    null : Value
    str : String → Value
    bool : Bool → Value
    int : ℤ → Value
    float : ℕ → Value
    number : JsonNumber → Value
    shown : String → Value
    strings : List String → Value
    ints : List ℤ → Value
    list : Items → Value
    nil_map : Value
    map : Fields → Value
    string_map : List (String × String) → Value
    int_map : List (String × ℤ) → Value
    maps : Maps → Value
    pointer : Value → Value
    nil_pointer : Value
    other_map : Fields → Value
    other_list : Items → Value
    opaque : ℕ → Value

  -- The elements of a `[]any`.
  pub data Items : Type 0 where
    nil : Items
    cons : Value → Items → Items

  -- The entries of a `map[string]any`.
  pub data Fields : Type 0 where
    end : Fields
    field : String → Value → Fields → Fields

  -- The elements of a `[]map[string]any`.
  pub data Maps : Type 0 where
    no_maps : Maps
    cons_map : Fields → Maps → Maps

-- `len(m) == 0`.
abbrev pub is_empty : Fields → Bool
is_empty end = true
is_empty (field k v fs) = false

-- A `map[string]any` that may be nil, as a value.
abbrev pub of_map : Option Fields → Value
of_map none = nil_map
of_map (some fs) = map fs

-- `nil` for a map without entries.
abbrev pub non_empty : Fields → Option Fields
non_empty end = none
non_empty (field k v fs) = some (field k v fs)

-- Reading a map that may be nil.
abbrev pub entries : Option Fields → Fields
entries none = end
entries (some fs) = fs

-- `v, ok := m[key]`.
unfoldable pub lookup : String → Fields → Option Value
lookup k end = none
lookup k (field j v fs) = if str_eq j k then some v else lookup k fs

-- `m[key] = v`.
unfoldable pub insert : String → Value → Fields → Fields
insert k v end = field k v end
insert k v (field j w fs) = if str_eq j k then field k v fs else field j w (insert k v fs)

-- `delete(m, key)`.
unfoldable pub delete : String → Fields → Fields
delete k end = end
delete k (field j v fs) = if str_eq j k then delete k fs else field j v (delete k fs)

-- Go's maps have each key once.
abbrev pub IsMap : Fields → Type 0
IsMap end = Unit {0}
IsMap (field k v fs) = (lookup k fs ≡ none) × IsMap fs

-- The loop `out[key] = value` over a map of texts or numbers.
unfoldable pub insert_all {ℓ} : {A : Type ℓ} → (A → Value) → List (String × A) → Fields → Fields
insert_all f [] out = out
insert_all f ((k, a) ∷ m) out = insert_all f m (insert k (f a) out)

-- A map of texts as a map of any values.
unfoldable pub any_fields {ℓ} : {A : Type ℓ} → (A → Value) → List (String × A) → Fields
any_fields f [] = end
any_fields f ((k, a) ∷ m) = field k (f a) (any_fields f m)

unfoldable pub any_items {ℓ} : {A : Type ℓ} → (A → Value) → List A → Items
any_items f [] = nil
any_items f (a ∷ l) = cons (f a) (any_items f l)

-- A property of every entry.
abbrev pub AllFields : (String → Value → Type 0) → Fields → Type 0
AllFields P end = Unit {0}
AllFields P (field k v fs) = P k v × AllFields P fs
