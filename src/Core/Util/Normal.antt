-- ===== src/Core/Util/Normal.antt =====
-- core/util.go: the values that `normalizeValue` returns, and those that JSON can hold.
use duckbug_go.Base.{
  String, str_eq, Option, none, some, List, [], ◌∷◌, ◌≡◌, refl, ap, ◌∙◌, sym, arith, Bool-cases,
  inl, inr, eq_iff,
}
use duckbug_go.Value.{
  Value, null, str, bool, int, float, number, shown, strings, ints, list, nil_map, string_map,
  int_map, maps, pointer, nil_pointer, other_map, other_list, opaque, Items, nil, cons, Fields, end,
  field, insert, any_items, insert_all, JsonNumber, as_int, as_float, as_text, Maps, no_maps,
  cons_map, lookup,
}
use duckbug_go.Value.Entries.{lookup-insert}
use duckbug_go.Value.Append.{
  append, append_assoc, append-end, insert_new, Apart, Apart-append, Apart-end,
}
use duckbug_go.Core.Util.{
  Json, json_null, json_bool, json_float, json_string, json_array, json_object, JsonItems, json_nil,
  json_cons, JsonFields, json_end, json_field, decoded, decoded_items, decoded_fields, Reflection,
  of_number, of_opaque, normalize_value, normalize_items, normalize_fields, normalize_maps,
}
use duckbug_go.Pond.Masked.{IsPlain, IsPlainItems, IsPlainFields}

abbrev mutual
  pub IsNormal : Value → Type 0
  IsNormal null = Unit
  IsNormal (str s) = Unit
  IsNormal (bool b) = Unit
  IsNormal (int i) = Unit
  IsNormal (float x) = Unit
  IsNormal (list xs) = IsNormalItems xs
  IsNormal (Value.map fs) = IsNormalFields fs
  IsNormal v = ⊥

  pub IsNormalItems : Items → Type 0
  IsNormalItems nil = Unit
  IsNormalItems (cons v xs) = IsNormal v × IsNormalItems xs

  pub IsNormalFields : Fields → Type 0
  IsNormalFields end = Unit
  IsNormalFields (field k v fs) = IsNormal v × (lookup k fs ≡ none) × IsNormalFields fs

pub insert-IsNormal :
    (k : String) (v : Value) (fs : Fields)
    → IsNormal v
    → IsNormalFields fs
    → IsNormalFields (insert k v fs)
unfolding insert lookup
insert-IsNormal k v end n h = (n, refl, tt)
insert-IsNormal k v (field j w fs) n h = elim (Bool-cases (str_eq j k)) [
  | inl e ↦ let je : j ≡ k = (eq_iff j k).0 e in rw e (n, rw (← je) h.1, h.2)
  | inr e ↦ rw e (
    h.0,
    ground (arith, lookup-insert k j v fs, eq_iff j k, eq_iff k j, h.1),
    insert-IsNormal k v fs n h.2,
  )
]

insert_all-IsNormal {ℓ} :
    {A : Type ℓ} (f : A → Value) (m : List (String × A)) (out : Fields)
    → ((a : A) → IsNormal (f a))
    → IsNormalFields out
    → IsNormalFields (insert_all f m out)
unfolding insert_all
insert_all-IsNormal f [] out n h = h
insert_all-IsNormal f ((k, a) ∷ m) out n h =
    insert_all-IsNormal f m _ n (insert-IsNormal k (f a) out (n a) h)

any_items-IsNormal {ℓ} :
    {A : Type ℓ} (f : A → Value) (xs : List A)
    → ((a : A) → IsNormal (f a))
    → IsNormalItems (any_items f xs)
unfolding any_items
any_items-IsNormal f [] n = tt
any_items-IsNormal f (x ∷ xs) n = (n x, any_items-IsNormal f xs n)

mutual
  unfolding decoded

  decoded_is-IsNormal : (j : Json) → IsNormal (decoded j)
  decoded_is-IsNormal json_null = tt
  decoded_is-IsNormal (json_bool b) = tt
  decoded_is-IsNormal (json_float x) = tt
  decoded_is-IsNormal (json_string s) = tt
  decoded_is-IsNormal (json_array xs) = decoded_items-IsNormal xs
  decoded_is-IsNormal (json_object fs) = decoded_fields-IsNormal fs end tt

  decoded_items-IsNormal : (xs : JsonItems) → IsNormalItems (decoded_items xs)
  decoded_items-IsNormal json_nil = tt
  decoded_items-IsNormal (json_cons v xs) = (decoded_is-IsNormal v, decoded_items-IsNormal xs)

  decoded_fields-IsNormal :
      (fs : JsonFields) (out : Fields) → IsNormalFields out → IsNormalFields (decoded_fields fs out)
  decoded_fields-IsNormal json_end out h = h
  decoded_fields-IsNormal (json_field k v fs) out h =
      decoded_fields-IsNormal fs _ (insert-IsNormal k (decoded v) out (decoded_is-IsNormal v) h)

module _ ⦃r : Reflection⦄ where
  of_number-IsNormal : (n : JsonNumber) → IsNormal (of_number n)
  of_number-IsNormal (as_int i) = tt
  of_number-IsNormal (as_float x) = tt
  of_number-IsNormal (as_text s) = tt

  of_opaque-IsNormal : (n : Prim.Native.Nat.ℕ) (j : Option Json) → IsNormal (of_opaque n j)
  of_opaque-IsNormal n none = tt
  of_opaque-IsNormal n (some j) = decoded_is-IsNormal j

  mutual
    unfolding normalize_value

    value-IsNormal : (v : Value) → IsNormal (normalize_value v)
    value-IsNormal null = tt
    value-IsNormal (str s) = tt
    value-IsNormal (bool b) = tt
    value-IsNormal (int n) = tt
    value-IsNormal (float x) = tt
    value-IsNormal (number n) = of_number-IsNormal n
    value-IsNormal (shown s) = tt
    value-IsNormal (strings xs) = any_items-IsNormal str xs (λ a. tt)
    value-IsNormal (ints xs) = any_items-IsNormal int xs (λ a. tt)
    value-IsNormal (list xs) = items-IsNormal xs
    value-IsNormal nil_map = tt
    value-IsNormal (Value.map fs) = fields-IsNormal fs end tt
    value-IsNormal (string_map m) = insert_all-IsNormal str m end (λ a. tt) tt
    value-IsNormal (int_map m) = insert_all-IsNormal int m end (λ a. tt) tt
    value-IsNormal (maps ms) = maps-IsNormal ms
    value-IsNormal (pointer v) = value-IsNormal v
    value-IsNormal nil_pointer = tt
    value-IsNormal (other_map fs) = fields-IsNormal fs end tt
    value-IsNormal (other_list xs) = items-IsNormal xs
    value-IsNormal (opaque n) = of_opaque-IsNormal n (r.marshal n)

    items-IsNormal : (xs : Items) → IsNormalItems (normalize_items xs)
    items-IsNormal nil = tt
    items-IsNormal (cons v xs) = (value-IsNormal v, items-IsNormal xs)

    fields-IsNormal :
        (fs out : Fields) → IsNormalFields out → IsNormalFields (normalize_fields fs out)
    fields-IsNormal end out h = h
    fields-IsNormal (field k v fs) out h =
        fields-IsNormal fs _ (insert-IsNormal k (normalize_value v) out (value-IsNormal v) h)

    maps-IsNormal : (ms : Maps) → IsNormalItems (normalize_maps ms)
    maps-IsNormal no_maps = tt
    maps-IsNormal (cons_map fs ms) = (fields-IsNormal fs end tt, maps-IsNormal ms)

  put_again :
      (k : String) (v w : Value) (fs out : Fields)
      → lookup k out ≡ none
      → w ≡ v
      → normalize_fields fs (append out (field k v end)) ≡ append (append out (field k v end)) fs
      → normalize_fields fs (insert k w out) ≡ append out (field k v fs)
  unfolding append
  put_again k v w fs out e wv rest =
      ap (λ x. normalize_fields fs (insert k x out)) wv
      ∙ ap (normalize_fields fs) (insert_new k v out e)
      ∙ rest
      ∙ append_assoc out (field k v end) fs

  mutual
    unfolding normalize_value append

    value_again : (v : Value) → IsNormal v → normalize_value v ≡ v
    value_again null h = refl
    value_again (str s) h = refl
    value_again (bool b) h = refl
    value_again (int n) h = refl
    value_again (float x) h = refl
    value_again (list xs) h = ap list (items_again xs h)
    value_again (Value.map fs) h = ap Value.map (fields_again fs end h (Apart-end fs))
    value_again _ h = elim h [ ]

    items_again : (xs : Items) → IsNormalItems xs → normalize_items xs ≡ xs
    items_again nil h = refl
    items_again (cons v xs) h = cc (value_again v h.0, items_again xs h.1)

    fields_again :
        (fs out : Fields)
        → IsNormalFields fs
        → Apart out fs
        → normalize_fields fs out ≡ append out fs
    fields_again end out h a = sym (append-end out)
    fields_again (field k v fs) out h a =
        put_again k v (normalize_value v) fs out a.0 (value_again v h.0)
          (fields_again fs (append out (field k v end)) h.2 (Apart-append k v out fs h.1 a.1))

mutual
  plain : (v : Value) → IsNormal v → IsPlain v
  plain null h = tt
  plain (str s) h = tt
  plain (bool b) h = tt
  plain (int n) h = tt
  plain (float x) h = tt
  plain (list xs) h = plain_items xs h
  plain (Value.map fs) h = plain_fields fs h
  plain _ h = elim h [ ]

  plain_items : (xs : Items) → IsNormalItems xs → IsPlainItems xs
  plain_items nil h = tt
  plain_items (cons v xs) h = (plain v h.0, plain_items xs h.1)

  plain_fields : (fs : Fields) → IsNormalFields fs → IsPlainFields fs
  plain_fields end h = tt
  plain_fields (field k v fs) h = (plain v h.0, plain_fields fs h.2)

pub normalize_value-IsPlain : ⦃r : Reflection⦄ (v : Value) → IsPlain (normalize_value v)
normalize_value-IsPlain v = plain (normalize_value v) (value-IsNormal v)

-- Whatever Go value is normalized, the result is a null, a text, a Boolean, a number, or a list or a map of
-- such results in which each key stands once; and normalizing it again gives the same value.
pub normalize_value_idem :
    ⦃r : Reflection⦄ (v : Value)
    → IsNormal (normalize_value v) × (normalize_value (normalize_value v) ≡ normalize_value v)
normalize_value_idem v = (value-IsNormal v, value_again (normalize_value v) (value-IsNormal v))

-- What the decoder of JSON returns is left as it is.
pub normalize_value-decoded : ⦃r : Reflection⦄ (j : Json) → normalize_value (decoded j) ≡ decoded j
normalize_value-decoded j = value_again (decoded j) (decoded_is-IsNormal j)
