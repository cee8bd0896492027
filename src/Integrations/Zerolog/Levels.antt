-- ===== src/Integrations/Zerolog/Levels.antt =====
-- integrations/zerolog/writer.go: levels, and lines without one.
use duckbug_go.Base.{
  String, Option, [], Option-cases, ℕ, ◌≤◌, min, str_eq, false, none, some, ◌<◌, ◌≡◌, refl, ◌⊎◌,
  inl, inr, arith,
}
use duckbug_go.Base.Int.{ℤ, pos, negsuc, ◌≤ℤ◌, pos_part}
use duckbug_go.Text.{Unicode}
use duckbug_go.Value.{Fields, lookup}
use duckbug_go.Core.Level.{severity}
use duckbug_go.Value.Entries.{lookup-delete}
use duckbug_go.Core.Util.{Reflection}
use duckbug_go.Core.Duck.{Circumstances}
use duckbug_go.Integrations.Zerolog.Writer.{Writer, unmarshal_line, capture_raw, write}
use duckbug_go.Integrations.Zerolog.{
  Surroundings, decode_payload, normalize_zerolog_level, capture, no_level,
}

module _ ⦃u : Unicode⦄ ⦃r : Reflection⦄ (around : Surroundings)
    (decode : String → Option Fields) where
  capture-unleveled :
      (n : ℕ) (payload : Fields)
      → 0 < n
      → str_eq around.message_field around.level_field ≡ false
      → lookup around.level_field payload ≡ none
      → capture around (pos n) no_level (some payload) ≡ none
  unfolding capture decode_payload
  capture-unleveled n payload h d e =
      rw (lookup-delete around.message_field around.level_field payload, d, e) (ground arith)

  -- A line that names no level never reaches the client through `Write`, whatever it says and whatever its writer
  -- returns, if the least level is above DEBUG, as it is by default.
  pub write-unleveled :
      (c : Circumstances) (raw : String) (payload : Fields) (w : Writer) (n : ℕ)
      → unmarshal_line decode raw ≡ some payload
      → lookup around.level_field payload ≡ none
      → str_eq around.message_field around.level_field ≡ false
      → w.min_lvl ≡ pos n
      → 0 < n
      → (write around decode c raw w).calls ≡ []
  unfolding write capture_raw
  write-unleveled c raw payload w n parsed e d least h = elim (Option-cases w.duck) [
    | inl q ↦ rw q
    | inr (duck, q) ↦ rw (q, least, parsed, capture-unleveled n payload h d e) refl
  ]

below_six : (n : ℕ) → n ≤ 5 → (n ≡ 0) ⊎ (n ≡ 1) ⊎ (n ≡ 2) ⊎ (n ≡ 3) ⊎ (n ≡ 4) ⊎ (n ≡ 5)
below_six n h = ground arith

rank :
    (a : ℤ) → negsuc 0 ≤ℤ a → a ≤ℤ pos 5 → severity (normalize_zerolog_level a) ≡ min 4 (pos_part a)
unfolding normalize_zerolog_level severity
rank (negsuc n) l h = let z : n ≡ 0 = omega arith in rw z refl
rank (pos n) l h = elim (below_six n (omega arith)) [
  | inl e ↦ rw e refl
  | inr (inl e) ↦ rw e refl
  | inr (inr (inl e)) ↦ rw e refl
  | inr (inr (inr (inl e))) ↦ rw e refl
  | inr (inr (inr (inr (inl e)))) ↦ rw e refl
  | inr (inr (inr (inr (inr e)))) ↦ rw e refl
]

-- From TRACE to PANIC, a higher zerolog level never gets a lower severity.
pub severity-normalize_zerolog_level :
    (a b : ℤ)
    → negsuc 0 ≤ℤ a
    → a ≤ℤ b
    → b ≤ℤ pos 5
    → severity (normalize_zerolog_level a) ≤ severity (normalize_zerolog_level b)
severity-normalize_zerolog_level a b l h k =
    rw (rank a l (upper a b h k), rank b (lower a b l h) k) (parts a b h)
  where
    upper : (a b : ℤ) → a ≤ℤ b → b ≤ℤ pos 5 → a ≤ℤ pos 5
    upper a b h k = omega arith

    lower : (a b : ℤ) → negsuc 0 ≤ℤ a → a ≤ℤ b → negsuc 0 ≤ℤ b
    lower a b l h = omega arith

    parts : (a b : ℤ) → a ≤ℤ b → min 4 (pos_part a) ≤ min 4 (pos_part b)
    parts (pos m) (pos n) h = omega arith
    parts (pos m) (negsuc n) h = omega arith
    parts (negsuc m) b h = omega arith
