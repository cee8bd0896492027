-- ===== src/Integrations/Slog/Attrs.antt =====
-- integrations/slog/handler.go: attributes, and how they are put into a map. Writing to a map that is nil is a
-- panic, which is `none`; a map is `none` if it is nil. Maps are values here: what is written to a map that an
-- attribute holds is not seen by the caller that holds it too.
use duckbug_go.Base.{
  ℕ, String, str_eq, Bool, true, false, ◌&&◌, Option, none, some, List, [], ◌∷◌, if◌then◌else◌,
}
use duckbug_go.Base.Int.{ℤ, pos}
use duckbug_go.Value.{
  Value, null, str, bool, int, float, nil_map, Fields, end, of_map, insert, lookup,
}

mutual
  -- `slog.Value`, by its kind. A duration is its text and a time its text in RFC 3339; `valuer` is a
  -- `slog.LogValuer`, by the value that `Resolve` yields.
  pub data SlogValue : Type 0 where
    any_value : Value → SlogValue
    bool_value : Bool → SlogValue
    duration_value : String → SlogValue
    float_value : ℕ → SlogValue
    int_value : ℤ → SlogValue
    string_value : String → SlogValue
    time_value : String → SlogValue
    uint_value : ℕ → SlogValue
    valuer : SlogValue → SlogValue
    group : Attrs → SlogValue

  pub data Attrs : Type 0 where
    no_attrs : Attrs
    attr : String → SlogValue → Attrs → Attrs

-- `Resolve`.
unfoldable pub resolve : SlogValue → SlogValue
resolve (valuer v) = resolve v
resolve v = v

abbrev pub is_group : SlogValue → Bool
is_group (group items) = true
is_group v = false

abbrev pub is_nil_value : SlogValue → Bool
is_nil_value (any_value null) = true
is_nil_value v = false

-- A map that may be nil.
abbrev pub Target : Type 0
Target = Option Fields

infixl 5 ◌>>=◌
abbrev pub ◌>>=◌ {ℓ κ} : {A : Type ℓ} {B : Type κ} → Option A → (A → Option B) → Option B
none >>= f = none
some a >>= f = f a

-- `target[key] = value`.
unfoldable pub write_key : String → Value → Target → Option Target
write_key key value none = none
write_key key value (some m) = some (some (insert key value m))

abbrev pub read_key : String → Target → Option Value
read_key key none = none
read_key key (some m) = lookup key m

-- `target[key].(map[string]any)`, or a new map.
abbrev pub inner_of : Option Value → Target
inner_of (some (Value.map m)) = some m
inner_of (some nil_map) = none
inner_of v = some end

-- A change of the map at a key, which is made if the key holds no map.
abbrev pub within : String → (Target → Option Target) → Target → Option Target
within key f target = do m ← f (inner_of (read_key key target)); write_key key (of_map m) target

-- The loop over the groups that are open, of which some may have no name.
unfoldable pub at_groups : List String → (Target → Option Target) → Target → Option Target
unfolding write_key
at_groups [] f target = f target
at_groups (g ∷ groups) f target =
    let inner = at_groups groups f in if str_eq g "" then inner target else within g inner target

-- `valueToAny` at a kind that is neither a valuer nor a group.
unfoldable pub leaf_value : SlogValue → Value
leaf_value (any_value v) = v
leaf_value (bool_value b) = bool b
leaf_value (duration_value s) = str s
leaf_value (float_value x) = float x
leaf_value (int_value i) = int i
leaf_value (string_value s) = str s
leaf_value (time_value s) = str s
leaf_value (uint_value n) = int (pos n)
leaf_value (valuer v) = null
leaf_value (group items) = null

unfoldable mutual
  unfolding write_key leaf_value

  -- `assignAttr`.
  pub assign_attr : String → SlogValue → Target → Option Target
  assign_attr key (group items) target =
      if str_eq key "" then assign_all items target else within key (assign_all items) target
  assign_attr key (valuer v) target =
      if str_eq key "" then some target else (value_to_any v >>= λ x. write_key key x target)
  assign_attr key v target =
      if str_eq key "" then some target else write_key key (leaf_value v) target

  -- The loop over the attributes of a group.
  pub assign_all : Attrs → Target → Option Target
  assign_all no_attrs target = some target
  assign_all (attr key value items) target = assign_attr key value target >>= assign_all items

  -- `valueToAny`; a valuer's value is resolved until it is none.
  pub value_to_any : SlogValue → Option Value
  value_to_any (valuer v) = value_to_any v
  value_to_any (group items) = assign_all items (some end) >>= λ m. some (of_map m)
  value_to_any v = some (leaf_value v)

-- `addAttr`, which leaves out an attribute without a key and a value.
unfoldable pub add_attr : List String → String → SlogValue → Target → Option Target
unfolding resolve at_groups assign_attr
add_attr groups key value none = some none
add_attr groups key value (some m) =
    if str_eq key "" && is_nil_value (resolve value)
    then some (some m)
    else at_groups groups (assign_attr key (resolve value)) (some m)

-- The loop over a handler's or a record's attributes.
unfoldable pub add_attrs : List String → List (String × SlogValue) → Target → Option Target
unfolding add_attr
add_attrs groups [] target = some target
add_attrs groups ((key, value) ∷ attrs) target =
    add_attr groups key value target >>= add_attrs groups attrs
