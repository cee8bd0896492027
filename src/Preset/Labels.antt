-- ===== src/Preset/Labels.antt =====
-- preset.go: what a new client's scope says of the program.
use duckbug_go.Base.{String, ◌≡◌}
use duckbug_go.Text.{trim_space}
use duckbug_go.Core.Scope.{Scope, ScopeSnapshot}
use duckbug_go.Core.Duck.{Duck}
use duckbug_go.Preset.{RuntimeConfig}

-- A setter writes a field, trimmed.
abbrev Sets : (Scope → String) → (String → Scope → Scope) → Type 0
Sets g set = (v : String) (s : Scope) → g (set v s) ≡ trim_space v

-- A setter leaves a field.
abbrev Leaves : (Scope → String) → (String → Scope → Scope) → Type 0
Leaves g set = (v : String) (s : Scope) → g (set v s) ≡ g s

-- The four labels of a scope.
abbrev pub labels : ScopeSnapshot → String × String × String × String
labels s = (s.environment, s.release, s.service, s.server_name)

abbrev quadruple : String → String → String → String → String × String × String × String
quadruple a b c d = (a, b, c, d)

abbrev pub trimmed_labels : RuntimeConfig → String × String × String × String
trimmed_labels cfg = (
  trim_space cfg.environment,
  trim_space cfg.release,
  trim_space cfg.service,
  trim_space cfg.server_name,
)
