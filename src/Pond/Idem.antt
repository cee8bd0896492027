-- ===== src/Pond/Idem.antt =====
-- pond/pond.go: sanitizing twice.
use duckbug_go.Base.{
  String, str_eq, Bool, true, false, List, [], ◌∷◌, ◌≡◌, refl, ap, ◌∙◌, sym, ◌⊎◌, inl, inr, arith,
  none, Bool-cases, eq_iff,
}
use duckbug_go.Text.{Unicode, trim_space}
use duckbug_go.Text.Trim.{trim_space_idem}
use duckbug_go.Value.{
  Value, null, str, strings, list, string_map, Items, nil, cons, Fields, end, field, of_map,
  non_empty, insert, any_items, is_empty, lookup,
}
use duckbug_go.Value.Entries.{lookup-insert}
use duckbug_go.Value.Append.{
  append, append_assoc, append-end, insert_new, Apart, Apart-append, Apart-end,
}
use duckbug_go.Pond.{
  Pond, should_mask_key, put_sanitized, sanitize_texts, sanitize_value, sanitize_items,
  sanitize_fields,
}

module _ ⦃u : Unicode⦄ (p : Pond) where
  -- The values that `sanitize_value` returns.
  abbrev mutual
    IsSanitized : Value → Bool → Type 0
    IsSanitized (Value.map fs) h = (is_empty fs ≡ false) × SanitizedFields fs h
    IsSanitized (list xs) h = SanitizedItems xs
    IsSanitized (strings xs) h = ⊥
    IsSanitized (string_map m) h = ⊥
    IsSanitized v h = Unit

    SanitizedItems : Items → Type 0
    SanitizedItems nil = Unit
    SanitizedItems (cons v xs) = IsSanitized v false × SanitizedItems xs

    SanitizedFields : Fields → Bool → Type 0
    SanitizedFields end h = Unit
    SanitizedFields (field k v fs) h =
        (trim_space k ≡ k)
        × (str_eq k "" ≡ false)
        × (((should_mask_key p k h ≡ true) × (v ≡ str p.mask))
            ⊎ ((should_mask_key p k h ≡ false) × IsSanitized v false))
        × (lookup k fs ≡ none)
        × SanitizedFields fs h

  insert-SanitizedFields :
      (k : String) (v : Value) (fs : Fields) (h : Bool)
      → trim_space k ≡ k
      → str_eq k "" ≡ false
      → ((should_mask_key p k h ≡ true) × (v ≡ str p.mask))
        ⊎ ((should_mask_key p k h ≡ false) × IsSanitized v false)
      → SanitizedFields fs h
      → SanitizedFields (insert k v fs) h
  unfolding insert lookup
  insert-SanitizedFields k v end h t n m s = (t, n, m, refl, tt)
  insert-SanitizedFields k v (field j w fs) h t n m s = elim (Bool-cases (str_eq j k)) [
    | inl e ↦ let je : j ≡ k = (eq_iff j k).0 e in rw e (t, n, m, (rw (← je) (s.3)), s.4)
    | inr e ↦ rw e (
      s.0,
      s.1,
      s.2,
      ground (arith, lookup-insert k j v fs, eq_iff j k, eq_iff k j, s.3),
      insert-SanitizedFields k v fs h t n m s.4,
    )
  ]

  put_sanitized-Sanitized :
      (k : String) (v : Value) (out : Fields) (h : Bool)
      → IsSanitized v false
      → SanitizedFields out h
      → SanitizedFields (put_sanitized p h k v out) h
  unfolding put_sanitized
  put_sanitized-Sanitized k v out h d o = elim (Bool-cases (str_eq (trim_space k) "")) [
    | inl e ↦ rw e o
    | inr e ↦ rw e (elim (Bool-cases (should_mask_key p (trim_space k) h)) [
      | inl s ↦ rw s (
          insert-SanitizedFields (trim_space k) (str p.mask) out h (trim_space_idem k) e
            (inl (s, refl)) o)
      | inr s ↦
          rw s (insert-SanitizedFields (trim_space k) v out h (trim_space_idem k) e (inr (s, d)) o)
    ])
  ]

  non_empty-Sanitized :
      (fs : Fields) (h : Bool) → SanitizedFields fs h → IsSanitized (of_map (non_empty fs)) h
  non_empty-Sanitized end h s = tt
  non_empty-Sanitized (field k v fs) h s = (refl, s)

  texts-Sanitized :
      (m : List (String × String)) (h : Bool) (out : Fields)
      → SanitizedFields out h
      → SanitizedFields (sanitize_texts p h m out) h
  unfolding sanitize_texts
  texts-Sanitized [] h out o = o
  texts-Sanitized ((k, s) ∷ m) h out o =
      texts-Sanitized m h _ (put_sanitized-Sanitized k (str s) out h tt o)

  any_items-Sanitized : (xs : List String) → SanitizedItems (any_items str xs)
  unfolding any_items
  any_items-Sanitized [] = tt
  any_items-Sanitized (x ∷ xs) = (tt, any_items-Sanitized xs)

  mutual
    unfolding sanitize_value

    value-Sanitized : (v : Value) (h : Bool) → IsSanitized (sanitize_value p h v) h
    value-Sanitized (Value.map fs) h = non_empty-Sanitized _ h (fields-Sanitized fs h end tt)
    value-Sanitized (string_map m) h = non_empty-Sanitized _ h (texts-Sanitized m h end tt)
    value-Sanitized (strings xs) h = any_items-Sanitized xs
    value-Sanitized (list xs) h = items-Sanitized xs
    value-Sanitized null h = tt
    value-Sanitized _ h = tt

    items-Sanitized : (xs : Items) → SanitizedItems (sanitize_items p xs)
    items-Sanitized nil = tt
    items-Sanitized (cons v xs) = (value-Sanitized v false, items-Sanitized xs)

    fields-Sanitized :
        (fs : Fields) (h : Bool) (out : Fields)
        → SanitizedFields out h
        → SanitizedFields (sanitize_fields p h fs out) h
    fields-Sanitized end h out o = o
    fields-Sanitized (field k v fs) h out o =
        fields-Sanitized fs h _
          (put_sanitized-Sanitized k (sanitize_value p false v) out h (value-Sanitized v false) o)

  put_again :
      (k : String) (v w : Value) (out : Fields) (h : Bool)
      → trim_space k ≡ k
      → str_eq k "" ≡ false
      → ((should_mask_key p k h ≡ true) × (v ≡ str p.mask))
        ⊎ ((should_mask_key p k h ≡ false) × (w ≡ v))
      → put_sanitized p h k w out ≡ insert k v out
  unfolding put_sanitized
  put_again k v w out h t n (inl (m, e)) = rw (t, n, m, e)
  put_again k v w out h t n (inr (m, e)) = rw (t, n, m, e)

  map_again :
      (fs gs : Fields) → is_empty gs ≡ false → fs ≡ gs → of_map (non_empty fs) ≡ Value.map gs
  map_again fs end n e = cc
  map_again fs (field k v gs) n e = rw e

  field_again :
      (k : String) (v : Value) (fs out : Fields) (h : Bool)
      → lookup k out ≡ none
      → put_sanitized p h k (sanitize_value p false v) out ≡ insert k v out
      → sanitize_fields p h fs (append out (field k v end)) ≡ append (append out (field k v end)) fs
      → sanitize_fields p h fs (put_sanitized p h k (sanitize_value p false v) out)
        ≡ append out (field k v fs)
  unfolding append
  field_again k v fs out h e put rest =
      ap (sanitize_fields p h fs) (put ∙ insert_new k v out e)
      ∙ rest
      ∙ append_assoc out (field k v end) fs

  mutual
    unfolding sanitize_value append

    value_again : (v : Value) (h : Bool) → IsSanitized v h → sanitize_value p h v ≡ v
    value_again (Value.map fs) h s = map_again _ fs s.0 (fields_again fs h end s.1 (Apart-end fs))
    value_again (string_map m) h s = elim s [ ]
    value_again (strings xs) h s = elim s [ ]
    value_again (list xs) h s = ap list (items_again xs s)
    value_again null h s = refl
    value_again _ h s = refl

    items_again : (xs : Items) → SanitizedItems xs → sanitize_items p xs ≡ xs
    items_again nil s = refl
    items_again (cons v xs) s = cc (value_again v false s.0, items_again xs s.1)

    fields_again :
        (fs : Fields) (h : Bool) (out : Fields)
        → SanitizedFields fs h
        → Apart out fs
        → sanitize_fields p h fs out ≡ append out fs
    fields_again end h out s a = sym (append-end out)
    fields_again (field k v fs) h out s a =
        field_again k v fs out h a.0
          (put_again k v (sanitize_value p false v) out h s.0 s.1
            (elim s.2 [ inl m ↦ inl m | inr (m, i) ↦ inr (m, value_again v false i) ]))
          (fields_again fs h (append out (field k v end)) s.4 (Apart-append k v out fs s.3 a.1))

-- Sanitizing in the same mode what was sanitized gives the same value.
pub sanitize_value_idem :
    ⦃u : Unicode⦄ (p : Pond) (h : Bool) (v : Value)
    → sanitize_value p h (sanitize_value p h v) ≡ sanitize_value p h v
sanitize_value_idem p h v = value_again p (sanitize_value p h v) h (value-Sanitized p v h)
