-- ===== src/Pond/Keys.antt =====
-- pond/pond.go: which keys a pond masks.
use duckbug_go.Base.{
  String, str_eq, Bool, false, not, ◌&&◌, ◌||◌, List, [], ◌∷◌, ◌++◌, map, ◌≡◌, refl, inl, inr, ◌∙◌,
  arith, Bool-cases, eq_iff,
}
use duckbug_go.Text.{Unicode, contains}
use duckbug_go.Pond.{
  Config, new, add_names, normalized, should_mask_key, default_sensitive_fields,
  default_sensitive_header_names,
}

contains-append :
    (k : String) (xs ys : List String) → contains k (xs ++ ys) ≡ (contains k xs || contains k ys)
unfolding contains
contains-append k [] ys = refl
contains-append k (x ∷ xs) ys = ground (arith, contains-append k xs ys)

module _ ⦃u : Unicode⦄ where
  contains-add_names :
      (k : String) (items names : List String)
      → str_eq k "" ≡ false
      → contains k (add_names items names) ≡ (contains k (map normalized items) || contains k names)
  unfolding contains add_names
  contains-add_names k [] names n = refl
  contains-add_names k (x ∷ xs) names n = elim (Bool-cases (str_eq (normalized x) "")) [
    | inl e ↦ rw e (
        contains-add_names k xs names n
        ∙ ground (arith, eq_iff (normalized x) "", eq_iff k "", eq_iff k (normalized x)))
    | inr e ↦ rw e (contains-add_names k xs (normalized x ∷ names) n ∙ ground arith)
  ]

  -- The names that a configuration adds to the default ones.
  abbrev pub all_fields : Config → List String
  all_fields c = map normalized c.sensitive_fields ++ map normalized default_sensitive_fields

  abbrev pub all_header_names : Config → List String
  all_header_names c =
      map normalized c.sensitive_header_names ++ map normalized default_sensitive_header_names

-- A pond made from a configuration masks exactly the keys that are not blank and that read, trimmed and in
-- lower case, as a default or a configured sensitive field does, or, in header mode, as a default or a
-- configured sensitive header name does.
pub should_mask_key-new :
    ⦃u : Unicode⦄ (environ : List String) (c : Config) (k : String) (h : Bool)
    → should_mask_key (new environ c) k h ≡ (
        not (str_eq (normalized k) "")
        && (h && contains (normalized k) (all_header_names c)
            || contains (normalized k) (all_fields c)))
unfolding should_mask_key new
should_mask_key-new environ c k h = elim (Bool-cases (str_eq (normalized k) "")) [
  | inl e ↦ rw e
  | inr e ↦ rw (
    e,
    contains-add_names (normalized k) c.sensitive_header_names
        (map normalized default_sensitive_header_names) e,
    contains-add_names (normalized k) c.sensitive_fields (map normalized default_sensitive_fields)
        e,
    contains-append (normalized k) (map normalized c.sensitive_header_names)
        (map normalized default_sensitive_header_names),
    contains-append (normalized k) (map normalized c.sensitive_fields)
        (map normalized default_sensitive_fields),
  )
]
