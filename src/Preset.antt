-- ===== src/Preset.antt =====
-- preset.go: a client from a DSN and options.
pub mod Labels
use duckbug_go.Base.{
  String, str_eq, Bool, true, false, Option, none, some, List, [], ◌∷◌, ◌++◌, ◌≡◌, refl, inl, inr,
  Bool-cases, if◌then◌else◌, is_nil,
}
use duckbug_go.Text.{Unicode, trim_space}
use duckbug_go.Pond.{Pond, ripple}
use duckbug_go.Core.Util.{Reflection}
use duckbug_go.Core.Scope.{
  Scope, set_environment, set_release, set_service, set_server_name, new_scope,
}
use duckbug_go.Core.Duck.{Duck, Handle, new_duck}
use duckbug_go.Provider.Config.{ConfigOption, Settings, configure, new_with_config}

-- A pond that is nil is `none`.
pub record RuntimeConfig : Type 0 where
  pub provider_options : List ConfigOption
  pub sensitive_fields : List String
  pub pond : Option Pond
  pub environment : String
  pub release : String
  pub service : String
  pub server_name : String

abbrev pub PresetOption : Type 0
PresetOption = RuntimeConfig → RuntimeConfig

unfoldable pub with_environment : String → PresetOption
with_environment environment cfg =
    let env = trim_space environment in
    if str_eq env "" then cfg else record cfg { environment = env }

unfoldable pub with_release : String → PresetOption
with_release release cfg = record cfg { release = release }

unfoldable pub with_service : String → PresetOption
with_service service cfg = record cfg { service = service }

unfoldable pub with_server_name : String → PresetOption
with_server_name server_name cfg = record cfg { server_name = server_name }

unfoldable pub with_sensitive_fields : List String → PresetOption
with_sensitive_fields fields cfg = record cfg { sensitive_fields = cfg.sensitive_fields ++ fields }

unfoldable pub with_pond : Option Pond → PresetOption
with_pond p cfg = record cfg { pond = p }

unfoldable pub with_provider_options : List ConfigOption → PresetOption
with_provider_options options cfg = record cfg {
  provider_options = cfg.provider_options ++ options;
}

-- The loop over the options, of which some may be nil.
unfoldable pub apply_preset_options : List (Option PresetOption) → RuntimeConfig → RuntimeConfig
apply_preset_options [] cfg = cfg
apply_preset_options (none ∷ options) cfg = apply_preset_options options cfg
apply_preset_options (some option ∷ options) cfg = apply_preset_options options (option cfg)

abbrev pub configured : List (Option PresetOption) → RuntimeConfig
configured options = apply_preset_options options (record {
  provider_options = [];
  sensitive_fields = [];
  pond = none;
  environment = "";
  release = "";
  service = "";
  server_name = "";
})

-- A setter of the scope, unless the text is blank.
abbrev pub set_unless_blank : (String → Scope → Scope) → String → Duck → Duck
set_unless_blank set text d =
    let value = trim_space text in
    if str_eq value "" then d else record d { scope = set value d.scope }

-- A new client's only provider is the DuckBug provider.
abbrev pub duckbug_handle : Handle
duckbug_handle = record { number = 0; flushable = true }

module _ ⦃u : Unicode⦄ where
  -- The pond that the client gets; where no field is named it is the `Ripple(nil)` of `NewDuck`.
  unfoldable pub chosen_pond : List String → RuntimeConfig → Pond
  chosen_pond environ cfg = elim cfg.pond [
    | none ↦ ripple environ cfg.sensitive_fields
    | some p ↦ p
  ]

  -- `New`: the settings of the provider, and the client; `environ` is `os.Environ()` and `version` is
  -- `runtime.Version()`.
  unfoldable pub new : List String → String → String → List (Option PresetOption) → Settings × Duck
  unfolding apply_preset_options chosen_pond new_duck set_environment set_release set_service
      set_server_name
  new environ version dsn options =
      let cfg = configured options in
      let created = new_duck version (duckbug_handle ∷ []) (chosen_pond environ cfg) none none "" in
      (
        new_with_config (configure (trim_space dsn) cfg.provider_options),
        set_unless_blank set_server_name cfg.server_name (
            set_unless_blank set_service cfg.service (
              set_unless_blank set_release cfg.release
                (set_unless_blank set_environment cfg.environment created))),
      )
