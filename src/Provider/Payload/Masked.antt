-- ===== src/Provider/Payload/Masked.antt =====
-- providers/duckbug/provider.go: cleaning a payload leaves masked what is masked.
use duckbug_go.Base.{String, Option, none, some, refl, ap, inl, inr}
use duckbug_go.Text.{Unicode}
use duckbug_go.Value.{
  Value, null, str, bool, int, float, number, shown, strings, ints, list, nil_map, string_map,
  int_map, maps, pointer, nil_pointer, other_map, other_list, opaque, Items, nil, cons, Fields, end,
  field, of_map, non_empty,
}
use duckbug_go.Pond.{Pond}
use duckbug_go.Pond.Masked.{DeepItems, DeepFields, IsMaskedEntry, IsMasked}
use duckbug_go.Provider.Payload.{
  clone_value, clone_item, clone_items, clone_fields, kept_map, kept_list, add_entry, add_item,
  strip_value, strip_item, strip_items, strip_fields,
}

module _ ⦃u : Unicode⦄ (p : Pond) where
  abbrev Kept : String → Option Value → Type 0
  Kept k none = Unit
  Kept k (some v) = IsMaskedEntry p k v × IsMasked p v

  abbrev pub KeptItem : Option Value → Type 0
  KeptItem none = Unit
  KeptItem (some v) = IsMasked p v

  clone-IsMaskedEntry :
      (k : String) (v : Value) → IsMaskedEntry p k v → IsMaskedEntry p k (clone_value v)
  unfolding clone_value
  clone-IsMaskedEntry k v (inl e) = inl e
  clone-IsMaskedEntry k v (inr e) = inr (ap clone_value e)

  map-IsMasked :
      (fs : Fields) → DeepFields (IsMaskedEntry p) fs → IsMasked p (of_map (non_empty fs))
  map-IsMasked end h = tt
  map-IsMasked (field k v fs) h = h

  mutual
    unfolding clone_value

    pub clone_value-IsMasked : (v : Value) → IsMasked p v → IsMasked p (clone_value v)
    clone_value-IsMasked (Value.map fs) h = map-IsMasked _ (clone_fields-IsMasked fs h)
    clone_value-IsMasked (list xs) h = clone_items-IsMasked xs h
    clone_value-IsMasked null h = h
    clone_value-IsMasked nil_map h = h
    clone_value-IsMasked (str s) h = h
    clone_value-IsMasked (bool b) h = h
    clone_value-IsMasked (int n) h = h
    clone_value-IsMasked (float x) h = h
    clone_value-IsMasked (strings xs) h = h
    clone_value-IsMasked (string_map m) h = h
    clone_value-IsMasked (number x) h = h
    clone_value-IsMasked (shown x) h = h
    clone_value-IsMasked (ints x) h = h
    clone_value-IsMasked (int_map x) h = h
    clone_value-IsMasked (maps x) h = h
    clone_value-IsMasked (pointer x) h = h
    clone_value-IsMasked nil_pointer h = h
    clone_value-IsMasked (other_map x) h = h
    clone_value-IsMasked (other_list x) h = h
    clone_value-IsMasked (opaque x) h = h

    clone_item-IsMasked : (v : Value) → IsMasked p v → IsMasked p (clone_item v)
    clone_item-IsMasked (Value.map fs) h = map-IsMasked _ (clone_fields-IsMasked fs h)
    clone_item-IsMasked (list xs) h = h
    clone_item-IsMasked null h = h
    clone_item-IsMasked nil_map h = h
    clone_item-IsMasked (str s) h = h
    clone_item-IsMasked (bool b) h = h
    clone_item-IsMasked (int n) h = h
    clone_item-IsMasked (float x) h = h
    clone_item-IsMasked (strings xs) h = h
    clone_item-IsMasked (string_map m) h = h
    clone_item-IsMasked (number x) h = h
    clone_item-IsMasked (shown x) h = h
    clone_item-IsMasked (ints x) h = h
    clone_item-IsMasked (int_map x) h = h
    clone_item-IsMasked (maps x) h = h
    clone_item-IsMasked (pointer x) h = h
    clone_item-IsMasked nil_pointer h = h
    clone_item-IsMasked (other_map x) h = h
    clone_item-IsMasked (other_list x) h = h
    clone_item-IsMasked (opaque x) h = h

    clone_items-IsMasked :
        (xs : Items) → DeepItems (IsMaskedEntry p) xs → DeepItems (IsMaskedEntry p) (clone_items xs)
    clone_items-IsMasked nil h = tt
    clone_items-IsMasked (cons v xs) h = (clone_item-IsMasked v h.0, clone_items-IsMasked xs h.1)

    clone_fields-IsMasked :
        (fs : Fields)
        → DeepFields (IsMaskedEntry p) fs
        → DeepFields (IsMaskedEntry p) (clone_fields fs)
    clone_fields-IsMasked end h = tt
    clone_fields-IsMasked (field k v fs) h =
        (clone-IsMaskedEntry k v h.0, clone_value-IsMasked v h.1, clone_fields-IsMasked fs h.2)

  kept_map-KeptItem : (fs : Fields) → DeepFields (IsMaskedEntry p) fs → KeptItem (kept_map fs)
  kept_map-KeptItem end h = tt
  kept_map-KeptItem (field k v fs) h = h

  kept_list-KeptItem : (xs : Items) → DeepItems (IsMaskedEntry p) xs → KeptItem (kept_list xs)
  kept_list-KeptItem nil h = tt
  kept_list-KeptItem (cons v xs) h = h

  add_item-IsMasked :
      (o : Option Value) (xs : Items)
      → KeptItem o
      → DeepItems (IsMaskedEntry p) xs
      → DeepItems (IsMaskedEntry p) (add_item o xs)
  add_item-IsMasked none xs h i = i
  add_item-IsMasked (some v) xs h i = (h, i)

  add_entry-IsMasked :
      (k : String) (o : Option Value) (fs : Fields)
      → Kept k o
      → DeepFields (IsMaskedEntry p) fs
      → DeepFields (IsMaskedEntry p) (add_entry k o fs)
  add_entry-IsMasked k none fs h i = i
  add_entry-IsMasked k (some v) fs h i = (h.0, h.1, i)

  open_entry :
      (k : String) (o : Option Value) → ((v : Value) → IsMaskedEntry p k v) → KeptItem o → Kept k o
  open_entry k none h i = tt
  open_entry k (some v) h i = (h v, i)

  -- An entry stays masked: its key is not sensitive, or its value is the mask, which stays.
  strip-Kept :
      (k : String) (v : Value)
      → IsMaskedEntry p k v
      → KeptItem (strip_value v)
      → Kept k (strip_value v)
  unfolding strip_value
  strip-Kept k v (inl e) i = open_entry k (strip_value v) (λ w. inl e) i
  strip-Kept k v (inr e) i = rw e (inr refl, tt)

  mutual
    unfolding strip_value

    pub strip_value-KeptItem : (v : Value) → IsMasked p v → KeptItem (strip_value v)
    strip_value-KeptItem (Value.map fs) h = kept_map-KeptItem _ (strip_fields-IsMasked fs h)
    strip_value-KeptItem (list xs) h = kept_list-KeptItem _ (strip_items-IsMasked xs h)
    strip_value-KeptItem null h = tt
    strip_value-KeptItem nil_map h = tt
    strip_value-KeptItem (str s) h = h
    strip_value-KeptItem (bool b) h = h
    strip_value-KeptItem (int n) h = h
    strip_value-KeptItem (float x) h = h
    strip_value-KeptItem (strings xs) h = h
    strip_value-KeptItem (string_map m) h = h
    strip_value-KeptItem (number x) h = h
    strip_value-KeptItem (shown x) h = h
    strip_value-KeptItem (ints x) h = h
    strip_value-KeptItem (int_map x) h = h
    strip_value-KeptItem (maps x) h = h
    strip_value-KeptItem (pointer x) h = h
    strip_value-KeptItem nil_pointer h = h
    strip_value-KeptItem (other_map x) h = h
    strip_value-KeptItem (other_list x) h = h
    strip_value-KeptItem (opaque x) h = h

    strip_item-KeptItem : (v : Value) → IsMasked p v → KeptItem (strip_item v)
    strip_item-KeptItem (Value.map fs) h = kept_map-KeptItem _ (strip_fields-IsMasked fs h)
    strip_item-KeptItem (list xs) h = h
    strip_item-KeptItem null h = tt
    strip_item-KeptItem nil_map h = tt
    strip_item-KeptItem (str s) h = h
    strip_item-KeptItem (bool b) h = h
    strip_item-KeptItem (int n) h = h
    strip_item-KeptItem (float x) h = h
    strip_item-KeptItem (strings xs) h = h
    strip_item-KeptItem (string_map m) h = h
    strip_item-KeptItem (number x) h = h
    strip_item-KeptItem (shown x) h = h
    strip_item-KeptItem (ints x) h = h
    strip_item-KeptItem (int_map x) h = h
    strip_item-KeptItem (maps x) h = h
    strip_item-KeptItem (pointer x) h = h
    strip_item-KeptItem nil_pointer h = h
    strip_item-KeptItem (other_map x) h = h
    strip_item-KeptItem (other_list x) h = h
    strip_item-KeptItem (opaque x) h = h

    strip_items-IsMasked :
        (xs : Items) → DeepItems (IsMaskedEntry p) xs → DeepItems (IsMaskedEntry p) (strip_items xs)
    strip_items-IsMasked nil h = tt
    strip_items-IsMasked (cons v xs) h =
        add_item-IsMasked (strip_item v) (strip_items xs) (strip_item-KeptItem v h.0)
          (strip_items-IsMasked xs h.1)

    strip_fields-IsMasked :
        (fs : Fields)
        → DeepFields (IsMaskedEntry p) fs
        → DeepFields (IsMaskedEntry p) (strip_fields fs)
    strip_fields-IsMasked end h = tt
    strip_fields-IsMasked (field k v fs) h =
        add_entry-IsMasked k (strip_value v) (strip_fields fs)
          (strip-Kept k v h.0 (strip_value-KeptItem v h.1)) (strip_fields-IsMasked fs h.2)
