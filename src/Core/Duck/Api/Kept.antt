-- ===== src/Core/Duck/Api/Kept.antt =====
-- core/duck.go: what a client keeps while its scope is changed.
use duckbug_go.Base.{String, str_eq, false, Option, none, some, List, ◌≡◌}
use duckbug_go.Text.{trim_space}
use duckbug_go.Pond.{Pond}
use duckbug_go.Core.Scope.Calls.{WellFormed}
use duckbug_go.Core.Scope.Calls
use duckbug_go.Core.Duck.{Duck, Handle}

-- A client with these providers and this pond, whose scope is well formed.
abbrev pub Keeps : List Handle → Pond → Option Duck → Type 0
Keeps providers p none = ⊥
Keeps providers p (some d) = WellFormed d.scope × (d.providers ≡ providers) × (d.pond ≡ p)

IsPlatform : String → Type 0
IsPlatform s = (trim_space s ≡ s) × (str_eq s "" ≡ false)
