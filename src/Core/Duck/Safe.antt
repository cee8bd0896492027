-- ===== src/Core/Duck/Safe.antt =====
-- core/duck.go: the entries that a payload is built from, and what is masked in each.
use duckbug_go.Base.{
  String, str_eq, Bool, true, false, Option, none, some, List, [], ◌∷◌, ◌≡◌, refl, ◌⊎◌, inl, inr,
  Bool-cases,
}
use duckbug_go.Text.{Unicode, contains}
use duckbug_go.Value.{
  Value, str, strings, Fields, end, field, Maps, no_maps, cons_map, of_map, non_empty, insert,
  AllFields,
}
use duckbug_go.Value.Entries.{insert-AllFields}
use duckbug_go.Pond.{Pond, RequestContext, sanitize_value, sanitize_map}
use duckbug_go.Core.Duck.Plain.{OptPlain}
use duckbug_go.Pond.Masked.{IsMasked, sanitize_value-IsMasked}
use duckbug_go.Core.Scope.{Scope}
use duckbug_go.Core.Duck.{put_text, put_map, put_tags, put_sanitized_map, put_breadcrumbs}

-- The entries that hold a `[]map[string]any`.
abbrev pub unsanitized : List String
unsanitized = "breadcrumbs" ∷ "exception" ∷ "stacktrace" ∷ []

-- The maps of a request context are JSON-like data.
abbrev pub RequestPlain : Option RequestContext → Type 0
RequestPlain none = Unit
RequestPlain (some q) =
    OptPlain q.headers
    × OptPlain q.query_params
    × OptPlain q.body_params
    × OptPlain q.cookies
    × OptPlain q.session
    × OptPlain q.files

-- The maps of a scope are JSON-like data, as its setters leave them.
abbrev pub ScopePlain : Scope → Type 0
ScopePlain s = OptPlain s.user × OptPlain s.extra × OptPlain s.sdk × OptPlain s.runtime

module _ ⦃u : Unicode⦄ (p : Pond) where
  -- An entry that is masked at any depth, or is one of the excepted ones.
  abbrev pub Safe : String → Value → Type 0
  Safe k v = IsMasked p v ⊎ (contains k unsanitized ≡ true)

  unfoldable pub AllSafe : Fields → Type 0
  AllSafe fs = AllFields Safe fs

  abbrev pub OptMasked : Option Fields → Type 0
  OptMasked none = Unit
  OptMasked (some m) = IsMasked p (Value.map m)

  pub put-AllSafe :
      (k : String) (v : Value) (fs : Fields) → IsMasked p v → AllSafe fs → AllSafe (insert k v fs)
  unfolding AllSafe
  put-AllSafe k v fs m h = insert-AllFields Safe k v fs (inl m) h

  pub except-AllSafe :
      (k : String) (v : Value) (fs : Fields)
      → contains k unsanitized ≡ true
      → AllSafe fs
      → AllSafe (insert k v fs)
  unfolding AllSafe
  except-AllSafe k v fs e h = insert-AllFields Safe k v fs (inr e) h

  pub put_text-AllSafe : (k s : String) (fs : Fields) → AllSafe fs → AllSafe (put_text k s fs)
  put_text-AllSafe k s fs h = elim (Bool-cases (str_eq s "")) [
    | inl e ↦ rw e h
    | inr e ↦ rw e (put-AllSafe k (str s) fs tt h)
  ]

  pub put_map-AllSafe :
      (k : String) (m : Option Fields) (fs : Fields)
      → OptMasked m
      → AllSafe fs
      → AllSafe (put_map k m fs)
  put_map-AllSafe k none fs i h = h
  put_map-AllSafe k (some m) fs i h = put-AllSafe k (Value.map m) fs i h

  pub put_tags-AllSafe :
      (tags : List String) (fs : Fields) → AllSafe fs → AllSafe (put_tags tags fs)
  put_tags-AllSafe [] fs h = h
  put_tags-AllSafe (t ∷ ts) fs h = put-AllSafe "dTags" (strings (t ∷ ts)) fs tt h

  pub put_sanitized_map-AllSafe :
      (k : String) (m : Option Fields) (fs : Fields)
      → OptPlain m
      → AllSafe fs
      → AllSafe (put_sanitized_map p k m fs)
  put_sanitized_map-AllSafe k none fs i h = h
  put_sanitized_map-AllSafe k (some m) fs i h =
      put-AllSafe k _ fs (sanitize_value-IsMasked p false (Value.map m) i) h

  pub put_breadcrumbs-AllSafe :
      (ms : Maps) (fs : Fields) → AllSafe fs → AllSafe (put_breadcrumbs p ms fs)
  unfolding contains
  put_breadcrumbs-AllSafe no_maps fs h = h
  put_breadcrumbs-AllSafe (cons_map m ms) fs h = except-AllSafe "breadcrumbs" _ fs refl h

  optional-OptMasked : (fs : Fields) → IsMasked p (of_map (non_empty fs)) → OptMasked (non_empty fs)
  optional-OptMasked end h = tt
  optional-OptMasked (field k v fs) h = h

  pub sanitize_map-OptMasked :
      (b : Bool) (m : Option Fields) → OptPlain m → OptMasked (sanitize_map p b m)
  unfolding sanitize_map sanitize_value
  sanitize_map-OptMasked b none h = tt
  sanitize_map-OptMasked b (some fs) h =
      optional-OptMasked _ (sanitize_value-IsMasked p b (Value.map fs) h)
