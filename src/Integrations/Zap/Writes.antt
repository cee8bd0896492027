-- ===== src/Integrations/Zap/Writes.antt =====
-- integrations/zap/core.go: the events of a core's entries.
use duckbug_go.Base.{String, Bool, true, false, ◌||◌, ◌==◌, ◌≡◌, refl, if◌then◌else◌}
use duckbug_go.Base.Int.{ℤ, pos, negsuc}
use duckbug_go.Text.{Unicode, trim_space, to_upper}
use duckbug_go.Core.Level.{any_text, from_level_name, normalize_level}
use duckbug_go.Core.Duck.{Duck}
use duckbug_go.Integrations.Zap.{Core, normalize_zap_level}

module _ ⦃u : Unicode⦄ where
  -- A text that the client's normalization keeps.
  abbrev Kept : String → Type 0
  Kept s = normalize_level (any_text s) ≡ s

  info-Kept : Kept "INFO"
  unfolding normalize_level from_level_name trim_space to_upper
  info-Kept = refl

  if-Kept : (b : Bool) (s t : String) → Kept s → Kept t → Kept (if b then s else t)
  if-Kept true s t h i = h
  if-Kept false s t h i = i

  -- The level of an entry is the level of its event: the client keeps what the core makes of zap's level.
  pub normalize_level-normalize_zap_level :
      (l : ℤ) → normalize_level (any_text (normalize_zap_level l)) ≡ normalize_zap_level l
  unfolding normalize_zap_level normalize_level from_level_name trim_space to_upper
  normalize_level-normalize_zap_level (negsuc n) = if-Kept (n == 0) "DEBUG" "INFO" refl info-Kept
  normalize_level-normalize_zap_level (pos n) = if-Kept (n == 0) "INFO" _ info-Kept (
      if-Kept (n == 1) "WARN" _ refl (
        if-Kept (n == 2 || n == 3) "ERROR" _ refl
          (if-Kept (n == 4 || n == 5) "FATAL" "INFO" refl info-Kept)))
