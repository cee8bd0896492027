-- ===== src/Core/Duck/Plain.antt =====
-- core/util.go: clones of JSON-like data.
use duckbug_go.Base.{String, Option, none, some, List, [], ◌∷◌}
use duckbug_go.Value.{
  Value, null, str, bool, int, float, number, shown, strings, ints, list, nil_map, string_map,
  int_map, maps, pointer, nil_pointer, other_map, other_list, opaque, Items, nil, cons, Fields, end,
  field, of_map, non_empty, any_fields,
}
use duckbug_go.Pond.Masked.{IsPlain, IsPlainItems, IsPlainFields}
use duckbug_go.Core.Util.{clone_map, clone_value, clone_items, clone_fields}

abbrev pub OptPlain : Option Fields → Type 0
OptPlain none = Unit
OptPlain (some fs) = IsPlainFields fs

mutual
  unfolding clone_value

  pub clone_value-IsPlain : (v : Value) → IsPlain v → IsPlain (clone_value v)
  clone_value-IsPlain (Value.map fs) h = map-IsPlain fs h
  clone_value-IsPlain (list xs) h = clone_items-IsPlain xs h
  clone_value-IsPlain null h = h
  clone_value-IsPlain (str s) h = h
  clone_value-IsPlain (bool b) h = h
  clone_value-IsPlain (int n) h = h
  clone_value-IsPlain (float x) h = h
  clone_value-IsPlain nil_map h = h
  clone_value-IsPlain (strings xs) h = h
  clone_value-IsPlain (string_map m) h = h
  clone_value-IsPlain (number x) h = h
  clone_value-IsPlain (shown x) h = h
  clone_value-IsPlain (ints x) h = h
  clone_value-IsPlain (int_map x) h = h
  clone_value-IsPlain (maps x) h = h
  clone_value-IsPlain (pointer x) h = h
  clone_value-IsPlain nil_pointer h = h
  clone_value-IsPlain (other_map x) h = h
  clone_value-IsPlain (other_list x) h = h
  clone_value-IsPlain (opaque x) h = h

  clone_items-IsPlain : (xs : Items) → IsPlainItems xs → IsPlainItems (clone_items xs)
  clone_items-IsPlain nil h = tt
  clone_items-IsPlain (cons v xs) h = (clone_value-IsPlain v h.0, clone_items-IsPlain xs h.1)

  clone_fields-IsPlain : (fs : Fields) → IsPlainFields fs → IsPlainFields (clone_fields fs)
  clone_fields-IsPlain end h = tt
  clone_fields-IsPlain (field k v fs) h = (clone_value-IsPlain v h.0, clone_fields-IsPlain fs h.1)

  map-IsPlain : (fs : Fields) → IsPlainFields fs → IsPlain (of_map (non_empty (clone_fields fs)))
  map-IsPlain end h = tt
  map-IsPlain (field k v fs) h = (clone_value-IsPlain v h.0, clone_fields-IsPlain fs h.1)

pub clone_map-OptPlain : (m : Option Fields) → OptPlain m → OptPlain (clone_map m)
unfolding clone_map clone_value
clone_map-OptPlain none h = tt
clone_map-OptPlain (some end) h = tt
clone_map-OptPlain (some (field k v fs)) h = clone_fields-IsPlain (field k v fs) h

pub env-OptPlain : (m : List (String × String)) → OptPlain (non_empty (any_fields str m))
unfolding any_fields
env-OptPlain [] = tt
env-OptPlain ((k, v) ∷ m) = (tt, texts m)
  where
    texts : (m : List (String × String)) → IsPlainFields (any_fields str m)
    texts [] = tt
    texts ((k, v) ∷ m) = (tt, texts m)
