-- ===== src/Provider/Payload/Strip.antt =====
-- providers/duckbug/provider.go: `stripNilValues` and `cloneMap`.
use duckbug_go.Base.{String, Option, none, some, ◌≡◌, refl, ap, ◌∙◌}
use duckbug_go.Value.{
  Value, null, list, nil_map, Items, nil, cons, Fields, end, field, of_map, non_empty,
}
use duckbug_go.Provider.Payload.{
  strip_value, strip_item, strip_items, strip_fields, strip_nil_values, kept_map, kept_list,
  add_entry, add_item, clone_value, clone_item, clone_items, clone_fields, clone_map,
}

-- No entry of a map is a null or an empty map or list; no element of a list is a null or an empty map.
-- Lists that stand in lists are not looked into.
abbrev mutual
  pub IsClean : Value → Type 0
  IsClean null = ⊥
  IsClean nil_map = ⊥
  IsClean (Value.map end) = ⊥
  IsClean (Value.map (field k v fs)) = IsClean v × IsCleanFields fs
  IsClean (list nil) = ⊥
  IsClean (list (cons v xs)) = IsCleanItem v × IsCleanItems xs
  IsClean v = Unit

  pub IsCleanItem : Value → Type 0
  IsCleanItem null = ⊥
  IsCleanItem nil_map = ⊥
  IsCleanItem (Value.map end) = ⊥
  IsCleanItem (Value.map (field k v fs)) = IsClean v × IsCleanFields fs
  IsCleanItem v = Unit

  pub IsCleanItems : Items → Type 0
  IsCleanItems nil = Unit
  IsCleanItems (cons v xs) = IsCleanItem v × IsCleanItems xs

  pub IsCleanFields : Fields → Type 0
  IsCleanFields end = Unit
  IsCleanFields (field k v fs) = IsClean v × IsCleanFields fs

abbrev OptClean : Option Value → Type 0
OptClean none = Unit
OptClean (some v) = IsClean v

abbrev OptCleanItem : Option Value → Type 0
OptCleanItem none = Unit
OptCleanItem (some v) = IsCleanItem v

kept_map-Clean : (fs : Fields) → IsCleanFields fs → OptClean (kept_map fs)
kept_map-Clean end h = tt
kept_map-Clean (field k v fs) h = h

kept_map-CleanItem : (fs : Fields) → IsCleanFields fs → OptCleanItem (kept_map fs)
kept_map-CleanItem end h = tt
kept_map-CleanItem (field k v fs) h = h

kept_list-Clean : (xs : Items) → IsCleanItems xs → OptClean (kept_list xs)
kept_list-Clean nil h = tt
kept_list-Clean (cons v xs) h = h

add_entry-Clean :
    (k : String) (o : Option Value) (fs : Fields)
    → OptClean o
    → IsCleanFields fs
    → IsCleanFields (add_entry k o fs)
add_entry-Clean k none fs o h = h
add_entry-Clean k (some v) fs o h = (o, h)

add_item-Clean :
    (o : Option Value) (xs : Items)
    → OptCleanItem o
    → IsCleanItems xs
    → IsCleanItems (add_item o xs)
add_item-Clean none xs o h = h
add_item-Clean (some v) xs o h = (o, h)

mutual
  unfolding strip_value

  strip_value-Clean : (v : Value) → OptClean (strip_value v)
  strip_value-Clean null = tt
  strip_value-Clean nil_map = tt
  strip_value-Clean (Value.map fs) = kept_map-Clean _ (strip_fields-Clean fs)
  strip_value-Clean (list xs) = kept_list-Clean _ (strip_items-Clean xs)
  strip_value-Clean _ = tt

  strip_item-Clean : (v : Value) → OptCleanItem (strip_item v)
  strip_item-Clean null = tt
  strip_item-Clean nil_map = tt
  strip_item-Clean (Value.map fs) = kept_map-CleanItem _ (strip_fields-Clean fs)
  strip_item-Clean _ = tt

  strip_items-Clean : (xs : Items) → IsCleanItems (strip_items xs)
  strip_items-Clean nil = tt
  strip_items-Clean (cons v xs) =
      add_item-Clean (strip_item v) _ (strip_item-Clean v) (strip_items-Clean xs)

  strip_fields-Clean : (fs : Fields) → IsCleanFields (strip_fields fs)
  strip_fields-Clean end = tt
  strip_fields-Clean (field k v fs) =
      add_entry-Clean k (strip_value v) _ (strip_value-Clean v) (strip_fields-Clean fs)

pub fields-IsClean : (fs : Fields) → IsCleanFields (strip_fields fs)
fields-IsClean fs = strip_fields-Clean fs

mutual
  unfolding strip_value

  clean_value : (v : Value) → IsClean v → strip_value v ≡ some v
  clean_value null h = elim h [ ]
  clean_value nil_map h = elim h [ ]
  clean_value (Value.map end) h = elim h [ ]
  clean_value (Value.map (field k v fs)) h = ap kept_map (
      ap (λ o. add_entry k o (strip_fields fs)) (clean_value v h.0)
      ∙ ap (field k v) (clean_fields fs h.1))
  clean_value (list nil) h = elim h [ ]
  clean_value (list (cons v xs)) h =
      ap kept_list (
        ap (λ o. add_item o (strip_items xs)) (clean_item v h.0) ∙ ap (cons v) (clean_items xs h.1))
  clean_value _ h = refl

  clean_item : (v : Value) → IsCleanItem v → strip_item v ≡ some v
  clean_item null h = elim h [ ]
  clean_item nil_map h = elim h [ ]
  clean_item (Value.map end) h = elim h [ ]
  clean_item (Value.map (field k v fs)) h = ap kept_map (
      ap (λ o. add_entry k o (strip_fields fs)) (clean_value v h.0)
      ∙ ap (field k v) (clean_fields fs h.1))
  clean_item _ h = refl

  clean_items : (xs : Items) → IsCleanItems xs → strip_items xs ≡ xs
  clean_items nil h = refl
  clean_items (cons v xs) h =
      ap (λ o. add_item o (strip_items xs)) (clean_item v h.0) ∙ ap (cons v) (clean_items xs h.1)

  clean_fields : (fs : Fields) → IsCleanFields fs → strip_fields fs ≡ fs
  clean_fields end h = refl
  clean_fields (field k v fs) h =
      ap (λ o. add_entry k o (strip_fields fs)) (clean_value v h.0)
      ∙ ap (field k v) (clean_fields fs h.1)

strip-non_empty : (fs : Fields) → strip_nil_values (non_empty fs) ≡ non_empty (strip_fields fs)
unfolding strip_nil_values strip_fields
strip-non_empty end = refl
strip-non_empty (field k v fs) = refl

-- Stripping what is stripped changes nothing.
pub strip_nil_values_idem :
    (m : Option Fields) → strip_nil_values (strip_nil_values m) ≡ strip_nil_values m
unfolding strip_nil_values
strip_nil_values_idem none = refl
strip_nil_values_idem (some fs) =
    strip-non_empty (strip_fields fs) ∙ ap non_empty (clean_fields _ (strip_fields-Clean fs))

kept-of_map :
    (fs gs : Fields)
    → strip_fields fs ≡ strip_fields gs
    → strip_value (of_map (non_empty fs)) ≡ kept_map (strip_fields gs)
unfolding strip_value
kept-of_map end gs e = ap kept_map e
kept-of_map (field k v fs) gs e = ap kept_map e

kept-of_map_item :
    (fs gs : Fields)
    → strip_fields fs ≡ strip_fields gs
    → strip_item (of_map (non_empty fs)) ≡ kept_map (strip_fields gs)
unfolding strip_value
kept-of_map_item end gs e = ap kept_map e
kept-of_map_item (field k v fs) gs e = ap kept_map e

mutual
  unfolding strip_value clone_value

  strip-clone_value : (v : Value) → strip_value (clone_value v) ≡ strip_value v
  strip-clone_value (Value.map fs) = kept-of_map (clone_fields fs) fs (strip-clone_fields fs)
  strip-clone_value (list xs) = ap kept_list (strip-clone_items xs)
  strip-clone_value null = refl
  strip-clone_value nil_map = refl
  strip-clone_value _ = refl

  strip-clone_item : (v : Value) → strip_item (clone_item v) ≡ strip_item v
  strip-clone_item (Value.map fs) = kept-of_map_item (clone_fields fs) fs (strip-clone_fields fs)
  strip-clone_item null = refl
  strip-clone_item nil_map = refl
  strip-clone_item _ = refl

  strip-clone_items : (xs : Items) → strip_items (clone_items xs) ≡ strip_items xs
  strip-clone_items nil = refl
  strip-clone_items (cons v xs) =
      ap (λ o. add_item o (strip_items (clone_items xs))) (strip-clone_item v)
      ∙ ap (add_item (strip_item v)) (strip-clone_items xs)

  strip-clone_fields : (fs : Fields) → strip_fields (clone_fields fs) ≡ strip_fields fs
  strip-clone_fields end = refl
  strip-clone_fields (field k v fs) =
      ap (λ o. add_entry k o (strip_fields (clone_fields fs))) (strip-clone_value v)
      ∙ ap (add_entry k (strip_value v)) (strip-clone_fields fs)

pub strip_value-clone : (v : Value) → strip_value (clone_value v) ≡ strip_value v
strip_value-clone v = strip-clone_value v

-- A clone is stripped to the same map as the original.
pub strip_nil_values-clone_map :
    (m : Option Fields) → strip_nil_values (clone_map m) ≡ strip_nil_values m
unfolding strip_nil_values clone_map
strip_nil_values-clone_map none = refl
strip_nil_values-clone_map (some fs) =
    strip-non_empty (clone_fields fs) ∙ ap non_empty (strip-clone_fields fs)
