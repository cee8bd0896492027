-- ===== src/Pond/Entries.antt =====
-- pond/pond.go: what the sanitized map holds at a key.
use duckbug_go.Base.{
  String, str_eq, if◌then◌else◌, Bool, false, ◌&&◌, not, Option, none, some, ◌≡◌, refl, inl, inr,
  arith, ◌∙◌, Bool-cases, Option-cases, eq_iff,
}
use duckbug_go.Text.{Unicode, trim_space}
use duckbug_go.Value.{Value, str, Fields, end, field, non_empty, entries, lookup}
use duckbug_go.Value.Entries.{lookup-insert}
use duckbug_go.Pond.{
  Pond, should_mask_key, put_sanitized, sanitize_value, sanitize_fields, sanitize_map,
}

-- The value of the last entry, in the order of the iteration, whose key reads `k` when it is trimmed.
-- A key that trims to nothing is not an entry.
unfoldable pub last_entry : String → Fields → Option Value
last_entry k end = none
last_entry k (field j v fs) = elim (last_entry k fs) [
  | some w ↦ some w
  | none ↦ if str_eq (trim_space j) k && not (str_eq k "") then some v else none
]

abbrev or_else : Option Value → Option Value → Option Value
or_else none o = o
or_else (some v) o = some v

module _ ⦃u : Unicode⦄ (p : Pond) (h : Bool) where
  -- What a value becomes under a key.
  abbrev pub shown_as : String → Value → Value
  shown_as k v = if should_mask_key p k h then str p.mask else sanitize_value p false v

  abbrev pub shown_at : String → Option Value → Option Value
  shown_at k none = none
  shown_at k (some v) = some (shown_as k v)

  lookup-put_sanitized :
      (k j : String) (v : Value) (out : Fields)
      → lookup k (put_sanitized p h j (sanitize_value p false v) out) ≡ (
          if str_eq (trim_space j) k && not (str_eq k "")
          then some (shown_as k v)
          else lookup k out)
  unfolding put_sanitized
  lookup-put_sanitized k j v out = ground (
    arith,
    eq_iff (trim_space j) k,
    eq_iff k "",
    eq_iff (trim_space j) "",
    lookup-insert (trim_space j) k (sanitize_value p false v) out,
    lookup-insert (trim_space j) k (str p.mask) out,
  )

  lookup-sanitize_fields :
      (k : String) (fs out : Fields)
      → lookup k (sanitize_fields p h fs out)
        ≡ or_else (shown_at k (last_entry k fs)) (lookup k out)
  unfolding last_entry sanitize_value
  lookup-sanitize_fields k end out = refl
  lookup-sanitize_fields k (field j v fs) out =
      lookup-sanitize_fields k fs (put_sanitized p h j (sanitize_value p false v) out)
      ∙ elim (Option-cases (last_entry k fs)) [
        | inr (w, e) ↦ rw e
        | inl e ↦
            rw (e, lookup-put_sanitized k j v out)
              (elim (Bool-cases (str_eq (trim_space j) k && not (str_eq k ""))) [
                | inl t ↦ rw t
                | inr t ↦ rw t
              ])
      ]

  lookup-non_empty : (k : String) (fs : Fields) → lookup k (entries (non_empty fs)) ≡ lookup k fs
  lookup-non_empty k end = refl
  lookup-non_empty k (field j v fs) = refl

-- The sanitized map has exactly the keys that the map has after trimming, blank ones left out. At such a
-- key it holds the mask if the pond masks the key in this mode, and else the sanitized value, of the last
-- entry that the iteration visits.
pub lookup-sanitize_map :
    ⦃u : Unicode⦄ (p : Pond) (h : Bool) (k : String) (values : Fields)
    → lookup k (entries (sanitize_map p h (some values))) ≡ shown_at p h k (last_entry k values)
unfolding sanitize_map lookup
lookup-sanitize_map p h k values =
    lookup-non_empty p h k (sanitize_fields p h values end)
    ∙ lookup-sanitize_fields p h k values end
    ∙ elim (Option-cases (last_entry k values)) [ inl e ↦ rw e | inr (v, e) ↦ rw e ]
