-- ===== src/Core/Util.antt =====
-- core/util.go: cloning and normalizing. Copying changes nothing that a payload shows but that an empty map
-- becomes nil, so a clone is a value of its own.
pub mod Normal
use duckbug_go.Base.{
  ℕ, String, str_eq, Bool, true, false, Option, none, some, List, [], ◌∷◌, if◌then◌else◌,
}
use duckbug_go.Base.Int.{ℤ}
use duckbug_go.Text.{trim_space}
use duckbug_go.Value.{
  Value, null, str, bool, int, float, number, shown, strings, ints, list, nil_map, string_map,
  int_map, maps, pointer, nil_pointer, other_map, other_list, opaque, Items, nil, cons, Fields, end,
  field, of_map, non_empty, insert, any_items, insert_all, JsonNumber, as_int, as_float, as_text,
  Maps, no_maps, cons_map,
}
use duckbug_go.Value

unfoldable mutual
  -- `cloneNormalizedValue`.
  pub clone_value : Value → Value
  clone_value (Value.map fs) = of_map (non_empty (clone_fields fs))
  clone_value (list xs) = list (clone_items xs)
  clone_value v = v

  pub clone_items : Items → Items
  clone_items nil = nil
  clone_items (cons v xs) = cons (clone_value v) (clone_items xs)

  -- The loop of `cloneMapStringAny`, which writes the keys of the map, each once.
  pub clone_fields : Fields → Fields
  clone_fields end = end
  clone_fields (field k v fs) = field k (clone_value v) (clone_fields fs)

-- `cloneMapStringAny`.
unfoldable pub clone_map : Option Fields → Option Fields
clone_map none = none
clone_map (some fs) = non_empty (clone_fields fs)

-- What `json.Unmarshal` makes of a text.
mutual
  pub data Json : Type 0 where
    json_null : Json
    json_bool : Bool → Json
    json_float : ℕ → Json
    json_string : String → Json
    json_array : JsonItems → Json
    json_object : JsonFields → Json

  pub data JsonItems : Type 0 where
    json_nil : JsonItems
    json_cons : Json → JsonItems → JsonItems

  pub data JsonFields : Type 0 where
    json_end : JsonFields
    json_field : String → Json → JsonFields → JsonFields

unfoldable mutual
  -- The decoded value; a key that stands twice has its last value.
  pub decoded : Json → Value
  decoded json_null = null
  decoded (json_bool b) = bool b
  decoded (json_float x) = float x
  decoded (json_string s) = str s
  decoded (json_array xs) = list (decoded_items xs)
  decoded (json_object fs) = Value.map (decoded_fields fs end)

  pub decoded_items : JsonItems → Items
  decoded_items json_nil = nil
  decoded_items (json_cons v xs) = cons (decoded v) (decoded_items xs)

  pub decoded_fields : JsonFields → Fields → Fields
  decoded_fields json_end out = out
  decoded_fields (json_field k v fs) out = decoded_fields fs (insert k (decoded v) out)

-- What the runtime makes of a value of any other type: its JSON, if it has one, and its text.
pub record Reflection : Type 0 where
  pub marshal : ℕ → Option Json
  pub sprint : ℕ → String

abbrev pub of_number : JsonNumber → Value
of_number (as_int i) = int i
of_number (as_float x) = float x
of_number (as_text s) = str s

module _ ⦃r : Reflection⦄ where
  -- `json.Unmarshal(json.Marshal(value))`, which `normalizeValue` leaves as it is (see Util/Normal), or the text.
  abbrev pub of_opaque : ℕ → Option Json → Value
  of_opaque n none = str (r.sprint n)
  of_opaque n (some j) = decoded j

  unfoldable mutual
    -- `normalizeValue`.
    pub normalize_value : Value → Value
    normalize_value null = null
    normalize_value (str s) = str s
    normalize_value (bool b) = bool b
    normalize_value (int i) = int i
    normalize_value (float x) = float x
    normalize_value (number n) = of_number n
    normalize_value (shown s) = str s
    normalize_value (strings xs) = list (any_items str xs)
    normalize_value (ints xs) = list (any_items int xs)
    normalize_value (list xs) = list (normalize_items xs)
    normalize_value nil_map = Value.map end
    normalize_value (Value.map fs) = Value.map (normalize_fields fs end)
    normalize_value (string_map m) = Value.map (insert_all str m end)
    normalize_value (int_map m) = Value.map (insert_all int m end)
    normalize_value (maps ms) = list (normalize_maps ms)
    normalize_value (pointer v) = normalize_value v
    normalize_value nil_pointer = null
    normalize_value (other_map fs) = Value.map (normalize_fields fs end)
    normalize_value (other_list xs) = list (normalize_items xs)
    normalize_value (opaque n) = of_opaque n (r.marshal n)

    pub normalize_items : Items → Items
    normalize_items nil = nil
    normalize_items (cons v xs) = cons (normalize_value v) (normalize_items xs)

    -- The loop over a map, `out[key] = normalizeValue(item)`.
    pub normalize_fields : Fields → Fields → Fields
    normalize_fields end out = out
    normalize_fields (field k v fs) out = normalize_fields fs (insert k (normalize_value v) out)

    pub normalize_maps : Maps → Items
    normalize_maps no_maps = nil
    normalize_maps (cons_map fs ms) = cons (Value.map (normalize_fields fs end)) (normalize_maps ms)

  -- The body of the loop of `normalizeStringMap`.
  abbrev pub put_normalized : String → Value → Fields → Fields
  put_normalized key v out =
      let k = trim_space key in if str_eq k "" then out else insert k (normalize_value v) out

  unfoldable pub normalize_entries : Fields → Fields → Fields
  normalize_entries end out = out
  normalize_entries (field k v fs) out = normalize_entries fs (put_normalized k v out)

  -- `normalizeStringMap`.
  unfoldable pub normalize_string_map : Option Fields → Option Fields
  unfolding normalize_entries
  normalize_string_map none = none
  normalize_string_map (some fs) = non_empty (normalize_entries fs end)
