-- ===== src/Core/Duck/Delivered.antt =====
-- core/duck.go and core/types.go: the events that a dispatch hands to the providers, whose payloads are clones.
use duckbug_go.Base.{String, Option, none, some, List, [], ◌∷◌, ap, inl, inr, All}
use duckbug_go.Text.{Unicode}
use duckbug_go.Value.{
  Value, null, str, bool, int, float, number, shown, strings, ints, list, nil_map, string_map,
  int_map, maps, pointer, nil_pointer, other_map, other_list, opaque, Items, nil, cons, Fields, end,
  field, of_map, non_empty,
}
use duckbug_go.Pond.{Pond}
use duckbug_go.Pond.Masked.{DeepItems, DeepFields, IsMaskedEntry, IsMasked}
use duckbug_go.Core.Types.{EventType, Event}
use duckbug_go.Core.Util.{clone_map, clone_value, clone_items, clone_fields}
use duckbug_go.Core.Duck.{Duck, Handle, ProviderCall, captures, flushes}
use duckbug_go.Core.Duck.Dispatch.{new_event, dispatch, dispatch_to}
use duckbug_go.Core.Duck.Safe.{AllSafe, Safe}

module _ ⦃u : Unicode⦄ (p : Pond) where
  clone-IsMaskedEntry :
      (k : String) (v : Value) → IsMaskedEntry p k v → IsMaskedEntry p k (clone_value v)
  unfolding clone_value
  clone-IsMaskedEntry k v (inl e) = inl e
  clone-IsMaskedEntry k v (inr e) = inr (ap clone_value e)

  mutual
    unfolding clone_value

    clone_value-IsMasked : (v : Value) → IsMasked p v → IsMasked p (clone_value v)
    clone_value-IsMasked (Value.map fs) h = map-IsMasked fs h
    clone_value-IsMasked (list xs) h = clone_items-IsMasked xs h
    clone_value-IsMasked null h = h
    clone_value-IsMasked (str s) h = h
    clone_value-IsMasked (bool b) h = h
    clone_value-IsMasked (int n) h = h
    clone_value-IsMasked (float x) h = h
    clone_value-IsMasked nil_map h = h
    clone_value-IsMasked (strings xs) h = h
    clone_value-IsMasked (string_map m) h = h
    clone_value-IsMasked (number x) h = h
    clone_value-IsMasked (shown x) h = h
    clone_value-IsMasked (ints x) h = h
    clone_value-IsMasked (int_map x) h = h
    clone_value-IsMasked (maps x) h = h
    clone_value-IsMasked (pointer x) h = h
    clone_value-IsMasked nil_pointer h = h
    clone_value-IsMasked (other_map x) h = h
    clone_value-IsMasked (other_list x) h = h
    clone_value-IsMasked (opaque x) h = h

    clone_items-IsMasked :
        (xs : Items) → DeepItems (IsMaskedEntry p) xs → DeepItems (IsMaskedEntry p) (clone_items xs)
    clone_items-IsMasked nil h = tt
    clone_items-IsMasked (cons v xs) h = (clone_value-IsMasked v h.0, clone_items-IsMasked xs h.1)

    clone_fields-IsMasked :
        (fs : Fields)
        → DeepFields (IsMaskedEntry p) fs
        → DeepFields (IsMaskedEntry p) (clone_fields fs)
    clone_fields-IsMasked end h = tt
    clone_fields-IsMasked (field k v fs) h =
        (clone-IsMaskedEntry k v h.0, clone_value-IsMasked v h.1, clone_fields-IsMasked fs h.2)

    map-IsMasked :
        (fs : Fields)
        → DeepFields (IsMaskedEntry p) fs
        → IsMasked p (of_map (non_empty (clone_fields fs)))
    map-IsMasked end h = tt
    map-IsMasked (field k v fs) h =
        (clone-IsMaskedEntry k v h.0, clone_value-IsMasked v h.1, clone_fields-IsMasked fs h.2)

  clone-Safe : (k : String) (v : Value) → Safe p k v → Safe p k (clone_value v)
  clone-Safe k v (inl m) = inl (clone_value-IsMasked v m)
  clone-Safe k v (inr e) = inr e

  clone-AllSafe : (fs : Fields) → AllSafe p fs → AllSafe p (clone_fields fs)
  unfolding AllSafe clone_value
  clone-AllSafe end h = tt
  clone-AllSafe (field k v fs) h = (clone-Safe k v h.0, clone-AllSafe fs h.1)

  -- The payload that a provider is handed, which is nil or has only entries that are safe.
  abbrev pub OptSafe : Option Fields → Type 0
  OptSafe none = Unit
  OptSafe (some fs) = AllSafe p fs

  abbrev pub IsSafeCall : ProviderCall → Type 0
  IsSafeCall (captures to e) = OptSafe e.payload
  IsSafeCall (flushes to) = Unit

  optional-OptSafe : (fs : Fields) → AllSafe p fs → OptSafe (non_empty fs)
  optional-OptSafe end h = tt
  optional-OptSafe (field k v fs) h = h

  event-OptSafe : (t : EventType) (fs : Fields) → AllSafe p fs → OptSafe (new_event t fs).payload
  unfolding new_event clone_map
  event-OptSafe t fs h = optional-OptSafe (clone_fields fs) (clone-AllSafe fs h)

  each-IsSafeCall :
      (hs : List Handle) (e : Event) → OptSafe e.payload → All IsSafeCall (dispatch_to hs e)
  unfolding dispatch_to
  each-IsSafeCall [] e h = tt
  each-IsSafeCall (x ∷ hs) e h = (h, each-IsSafeCall hs e h)

  pub dispatch-IsSafeCall :
      (d : Duck) (t : EventType) (fs : Fields)
      → AllSafe p fs
      → All IsSafeCall (dispatch d (new_event t fs))
  unfolding dispatch
  dispatch-IsSafeCall d t fs h = each-IsSafeCall d.providers _ (event-OptSafe t fs h)
