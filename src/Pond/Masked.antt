-- ===== src/Pond/Masked.antt =====
-- pond/pond.go: masked values, at any depth, and `SanitizeValue`.
use duckbug_go.Base.{
  String, str_eq, Bool, false, List, [], ◌∷◌, ◌≡◌, refl, ◌⊎◌, inl, inr, arith, Bool-cases,
}
use duckbug_go.Text.{Unicode, trim_space}
use duckbug_go.Value.{
  Value, null, str, bool, int, float, number, shown, strings, ints, list, nil_map, string_map,
  int_map, maps, pointer, nil_pointer, other_map, other_list, opaque, Items, nil, cons, Fields, end,
  field, Maps, no_maps, cons_map, of_map, non_empty, insert, any_items,
}
use duckbug_go.Value
use duckbug_go.Pond.{
  Pond, should_mask_key, put_sanitized, sanitize_texts, sanitize_value, sanitize_items,
  sanitize_fields,
}

-- A property of every entry of every map, at any depth of maps and lists.
abbrev mutual
  pub Deep : (String → Value → Type 0) → Value → Type 0
  Deep P (Value.map fs) = DeepFields P fs
  Deep P (list xs) = DeepItems P xs
  Deep P (maps ms) = DeepMaps P ms
  Deep P v = Unit

  pub DeepItems : (String → Value → Type 0) → Items → Type 0
  DeepItems P nil = Unit
  DeepItems P (cons v xs) = Deep P v × DeepItems P xs

  pub DeepFields : (String → Value → Type 0) → Fields → Type 0
  DeepFields P end = Unit
  DeepFields P (field k v fs) = P k v × Deep P v × DeepFields P fs

  pub DeepMaps : (String → Value → Type 0) → Maps → Type 0
  DeepMaps P no_maps = Unit
  DeepMaps P (cons_map fs ms) = DeepFields P fs × DeepMaps P ms

-- Values of the kinds that `sanitizeValue` goes into: JSON-like data and maps of texts.
abbrev mutual
  pub IsPlain : Value → Type 0
  IsPlain null = Unit
  IsPlain (str s) = Unit
  IsPlain (bool b) = Unit
  IsPlain (int i) = Unit
  IsPlain (float x) = Unit
  IsPlain nil_map = Unit
  IsPlain (strings xs) = Unit
  IsPlain (string_map m) = Unit
  IsPlain (Value.map fs) = IsPlainFields fs
  IsPlain (list xs) = IsPlainItems xs
  IsPlain v = ⊥

  pub IsPlainItems : Items → Type 0
  IsPlainItems nil = Unit
  IsPlainItems (cons v xs) = IsPlain v × IsPlainItems xs

  pub IsPlainFields : Fields → Type 0
  IsPlainFields end = Unit
  IsPlainFields (field k v fs) = IsPlain v × IsPlainFields fs

module _ (P : String → Value → Type 0) where
  pub insert-DeepFields :
      (k : String) (v : Value) (fs : Fields)
      → P k v
      → Deep P v
      → DeepFields P fs
      → DeepFields P (insert k v fs)
  unfolding insert
  insert-DeepFields k v end p d h = (p, d, tt)
  insert-DeepFields k v (field j w fs) p d h = elim (Bool-cases (str_eq j k)) [
    | inl e ↦ rw e (p, d, h.2)
    | inr e ↦ rw e (h.0, h.1, insert-DeepFields k v fs p d h.2)
  ]

  pub non_empty-Deep : (fs : Fields) → DeepFields P fs → Deep P (of_map (non_empty fs))
  non_empty-Deep end h = tt
  non_empty-Deep (field k v fs) h = h

  any_items-Deep : (xs : List String) → DeepItems P (any_items str xs)
  unfolding any_items
  any_items-Deep [] = tt
  any_items-Deep (x ∷ xs) = (tt, any_items-Deep xs)

module _ ⦃u : Unicode⦄ (p : Pond) where
  -- An entry does no harm: its key is not sensitive, or its value is the mask.
  abbrev pub IsMaskedEntry : String → Value → Type 0
  IsMaskedEntry k v = (should_mask_key p k false ≡ false) ⊎ (v ≡ str p.mask)

  abbrev pub IsMasked : Value → Type 0
  IsMasked = Deep IsMaskedEntry

  should_mask_key-fields :
      (k : String) (h : Bool) → should_mask_key p k h ≡ false → should_mask_key p k false ≡ false
  unfolding should_mask_key
  should_mask_key-fields k h e = ground arith

  pub put_sanitized-IsMasked :
      (h : Bool) (k : String) (v : Value) (out : Fields)
      → IsMasked v
      → DeepFields IsMaskedEntry out
      → DeepFields IsMaskedEntry (put_sanitized p h k v out)
  unfolding put_sanitized
  put_sanitized-IsMasked h k v out d o = elim (Bool-cases (str_eq (trim_space k) "")) [
    | inl e ↦ rw e o
    | inr e ↦ rw e (elim (Bool-cases (should_mask_key p (trim_space k) h)) [
      | inl s ↦ rw s (insert-DeepFields IsMaskedEntry _ _ out (inr refl) tt o)
      | inr s ↦ rw s (
          insert-DeepFields IsMaskedEntry _ v out (inl (should_mask_key-fields (trim_space k) h s))
            d o)
    ])
  ]

  sanitize_texts-IsMasked :
      (h : Bool) (m : List (String × String)) (out : Fields)
      → DeepFields IsMaskedEntry out
      → DeepFields IsMaskedEntry (sanitize_texts p h m out)
  unfolding sanitize_texts
  sanitize_texts-IsMasked h [] out o = o
  sanitize_texts-IsMasked h ((k, s) ∷ m) out o =
      sanitize_texts-IsMasked h m _ (put_sanitized-IsMasked h k (str s) out tt o)

  mutual
    unfolding sanitize_value

    value-IsMasked : (v : Value) (h : Bool) → IsPlain v → IsMasked (sanitize_value p h v)
    value-IsMasked null h i = tt
    value-IsMasked (str s) h i = tt
    value-IsMasked (bool b) h i = tt
    value-IsMasked (int n) h i = tt
    value-IsMasked (float x) h i = tt
    value-IsMasked nil_map h i = tt
    value-IsMasked (strings xs) h i = any_items-Deep IsMaskedEntry xs
    value-IsMasked (string_map m) h i =
        non_empty-Deep IsMaskedEntry _ (sanitize_texts-IsMasked h m end tt)
    value-IsMasked (Value.map fs) h i =
        non_empty-Deep IsMaskedEntry _ (fields-IsMasked fs h end i tt)
    value-IsMasked (list xs) h i = items-IsMasked xs i
    value-IsMasked (number x) h i = elim i [ ]
    value-IsMasked (shown x) h i = elim i [ ]
    value-IsMasked (ints x) h i = elim i [ ]
    value-IsMasked (int_map x) h i = elim i [ ]
    value-IsMasked (maps x) h i = elim i [ ]
    value-IsMasked (pointer x) h i = elim i [ ]
    value-IsMasked nil_pointer h i = elim i [ ]
    value-IsMasked (other_map x) h i = elim i [ ]
    value-IsMasked (other_list x) h i = elim i [ ]
    value-IsMasked (opaque x) h i = elim i [ ]

    items-IsMasked : (xs : Items) → IsPlainItems xs → DeepItems IsMaskedEntry (sanitize_items p xs)
    items-IsMasked nil i = tt
    items-IsMasked (cons v xs) i = (value-IsMasked v false i.0, items-IsMasked xs i.1)

    fields-IsMasked :
        (fs : Fields) (h : Bool) (out : Fields)
        → IsPlainFields fs
        → DeepFields IsMaskedEntry out
        → DeepFields IsMaskedEntry (sanitize_fields p h fs out)
    fields-IsMasked end h out i o = o
    fields-IsMasked (field k v fs) h out i o =
        fields-IsMasked fs h _ i.1
          (put_sanitized-IsMasked h k (sanitize_value p false v) out (value-IsMasked v false i.0) o)

-- Whatever the header mode, in the sanitized form of JSON-like data every map at any depth holds the mask
-- at each key that the pond masks outside of header mode.
pub sanitize_value-IsMasked :
    ⦃u : Unicode⦄ (p : Pond) (h : Bool) (v : Value) → IsPlain v → IsMasked p (sanitize_value p h v)
sanitize_value-IsMasked p h v i = value-IsMasked p v h i

-- A `[]map[string]any` is none of the kinds that are gone into: it comes back with every value it holds.
pub sanitize_value-maps :
    ⦃u : Unicode⦄ (p : Pond) (h : Bool) (ms : Value.Maps) → sanitize_value p h (maps ms) ≡ maps ms
unfolding sanitize_value
sanitize_value-maps p h ms = refl
