-- ===== src/Core/Scope/Tidy.antt =====
-- core/scope.go: the maps that the scope stores, normal values under trimmed keys.
use Prim.Native.String.{◌++◌ as str_append}
use duckbug_go.Base.{
  String, str_eq, Bool, true, false, Option, none, some, List, [], ◌∷◌, ◌≡◌, refl, Bool-cases,
  Option-cases, inl, inr, ◌⊎◌,
}
use duckbug_go.Base.Int.{ℤ}
use duckbug_go.Text.{trim_space}
use duckbug_go.Text.Trim.{trim_space_idem}
use duckbug_go.Value.{
  Value, int, Fields, end, field, Maps, no_maps, cons_map, lookup, insert, AllFields, non_empty,
}
use duckbug_go.Value.Entries.{insert-AllFields, lookup-insert_self}
use duckbug_go.Core.Util.{
  Reflection, normalize_value, normalize_entries, normalize_string_map, put_normalized,
}
use duckbug_go.Core.Util.Normal.{IsNormal, IsNormalFields, insert-IsNormal, normalize_value_idem}
use duckbug_go.Pond.{set_text}
use duckbug_go.Core.Scope.{append_map, stamped, tag_text}

-- A key is trimmed and not blank.
abbrev pub IsKey : String → Type 0
IsKey k = (trim_space k ≡ k) × (str_eq k "" ≡ false)

abbrev pub IsTidy : Fields → Type 0
IsTidy fs = IsNormalFields fs × AllFields (λ k v. IsKey k) fs

abbrev pub OptTidy : Option Fields → Type 0
OptTidy none = Unit
OptTidy (some fs) = IsTidy fs

insert-IsTidy :
    (k : String) (v : Value) (fs : Fields)
    → IsKey k
    → IsNormal v
    → IsTidy fs
    → IsTidy (insert k v fs)
insert-IsTidy k v fs key n h =
    (insert-IsNormal k v fs n h.0, insert-AllFields (λ k v. IsKey k) k v fs key h.1)

module _ ⦃r : Reflection⦄ where
  put_normalized-IsTidy :
      (k : String) (v : Value) (out : Fields) → IsTidy out → IsTidy (put_normalized k v out)
  put_normalized-IsTidy k v out h = elim (Bool-cases (str_eq (trim_space k) "")) [
    | inl e ↦ rw e h
    | inr e ↦ rw e (
        insert-IsTidy (trim_space k) (normalize_value v) out (trim_space_idem k, e)
          (normalize_value_idem v).0 h)
  ]

  entries-IsTidy : (fs out : Fields) → IsTidy out → IsTidy (normalize_entries fs out)
  unfolding normalize_entries
  entries-IsTidy end out h = h
  entries-IsTidy (field k v fs) out h =
      entries-IsTidy fs (put_normalized k v out) (put_normalized-IsTidy k v out h)

  non_empty-OptTidy : (fs : Fields) → IsTidy fs → OptTidy (non_empty fs)
  non_empty-OptTidy end h = tt
  non_empty-OptTidy (field k v fs) h = h

  pub normalize_string_map-OptTidy : (m : Option Fields) → OptTidy (normalize_string_map m)
  unfolding normalize_string_map
  normalize_string_map-OptTidy none = tt
  normalize_string_map-OptTidy (some fs) = non_empty-OptTidy _ (entries-IsTidy fs end (tt, tt))

-- A breadcrumb is tidy and has a time.
abbrev pub is_found : Option Value → Bool
is_found none = false
is_found (some v) = true

abbrev pub IsBreadcrumb : Fields → Type 0
IsBreadcrumb b = IsTidy b × (is_found (lookup "timestamp" b) ≡ true)

abbrev pub AllMaps : (Fields → Type 0) → Maps → Type 0
AllMaps P no_maps = Unit {0}
AllMaps P (cons_map fs ms) = P fs × AllMaps P ms

pub append_map-AllMaps :
    (P : Fields → Type 0) (b : Fields) (ms : Maps)
    → P b
    → AllMaps P ms
    → AllMaps P (append_map b ms)
unfolding append_map
append_map-AllMaps P b no_maps p h = (p, tt)
append_map-AllMaps P b (cons_map fs ms) p h = (h.0, append_map-AllMaps P b ms p h.1)

pub stamped-IsBreadcrumb :
    (now : ℤ) (b : Fields) → IsTidy b → IsBreadcrumb (stamped now b (lookup "timestamp" b))
unfolding trim_space
stamped-IsBreadcrumb now b h = elim (Option-cases (lookup "timestamp" b)) [
  | inl e ↦ rw e (
    insert-IsTidy "timestamp" (int now) b (refl, refl) tt h,
    rw (lookup-insert_self "timestamp" (int now) b),
  )
  | inr (v, e) ↦ rw e (h, rw e)
]

-- The tags: under each key, once, the key itself or the key, a colon and a text.
abbrev pub IsTag : String → String → Type 0
IsTag k v = (v ≡ k) ⊎ ((x : String) × (v ≡ str_append k (str_append ":" x)))

abbrev pub AllTags : List (String × String) → Type 0
AllTags [] = Unit {0}
AllTags ((k, v) ∷ m) = IsKey k × IsTag k v × AllTags m

pub set_text-AllTags :
    (k v : String) (m : List (String × String))
    → IsKey k
    → IsTag k v
    → AllTags m
    → AllTags (set_text k v m)
unfolding set_text
set_text-AllTags k v [] key t h = (key, t, tt)
set_text-AllTags k v ((j, w) ∷ m) key t h = elim (Bool-cases (str_eq j k)) [
  | inl e ↦ rw e (key, t, h.2)
  | inr e ↦ rw e (h.0, h.1, set_text-AllTags k v m key t h.2)
]

pub tag_text-IsTag : (k : String) (value : Option String) → IsTag k (tag_text k value)
tag_text-IsTag k none = inl refl
tag_text-IsTag k (some value) = inr (trim_space value, refl)
