-- ===== src/Core/Duck/Api.antt =====
-- core/duck.go: the methods of a client that may be nil. A client of the model has been made by NewDuck, so that
-- its scope, its pond, its clock and its generator of ids are there.
pub mod Kept
use duckbug_go.Base.{
  String, str_eq, Bool, true, false, Option, none, some, List, [], ◌∷◌, ◌≡◌, refl, if◌then◌else◌,
  is_nil,
}
use duckbug_go.Base.Int.{ℤ}
use duckbug_go.Text.{Unicode}
use duckbug_go.Value.{Value, Fields}
use duckbug_go.Pond.{Pond}
use duckbug_go.Core.Level.{LevelInput}
use duckbug_go.Core.Util.{Reflection}
use duckbug_go.Core.Transaction.{Transaction}
use duckbug_go.Core.Scope.Calls.{
  Call, sets_tag, sets_tags, clears_tags, sets_user, clears_user, sets_release, sets_environment,
  sets_dist, sets_server_name, sets_service, sets_request_id, sets_transaction, sets_fingerprint,
  sets_platform, sets_trace, sets_sdk, sets_runtime, sets_extra, adds_breadcrumb,
  clears_breadcrumbs, WellFormed, call-WellFormed,
}
use duckbug_go.Core.Scope.Calls
use duckbug_go.Core.Duck.{
  Duck, Handle, Circumstances, Capture, ProviderCall, set_duck_sdk, set_duck_runtime,
}
use duckbug_go.Core.Duck.Dispatch.{capture_error_at, log_context_at, capture_transaction_context}

-- `Ping`: the text of the error, if there is one.
unfoldable pub ping : Option Duck → Option String
ping none = some "duckbug: client is nil"
ping (some d) = if is_nil d.providers then some "duckbug: no providers registered" else none

-- `Pond`.
unfoldable pub pond_of : Option Duck → Option Pond
pond_of none = none
pond_of (some d) = some d.pond

module _ ⦃u : Unicode⦄ ⦃r : Reflection⦄ where
  abbrev or_manual : String → String
  or_manual mechanism = if str_eq mechanism "" then "manual" else mechanism

  -- `QuackContextDetails`, at an error that may be nil; the capture's frames are those of the call.
  unfoldable pub quack_context_details :
      Option Duck
      → Circumstances
      → Option Capture
      → Option Value
      → Bool
      → String
      → List ProviderCall
  unfolding capture_error_at
  quack_context_details duck c none details handled mechanism = []
  quack_context_details duck c (some e) details handled mechanism =
      capture_error_at duck c none
        (record e { handled = handled; mechanism = or_manual mechanism; stack_override = "" })
        details

  unfoldable pub quack_context : Option Duck → Circumstances → Option Capture → List ProviderCall
  unfolding quack_context_details
  quack_context duck c e = quack_context_details duck c e none true "manual"

  -- A context of the background has no request.
  abbrev background : Circumstances → Circumstances
  background c = record c { request = none }

  unfoldable pub quack : Option Duck → Circumstances → Option Capture → List ProviderCall
  unfolding quack_context
  quack duck c e = quack_context duck (background c) e

  unfoldable pub quack_details :
      Option Duck
      → Circumstances
      → Option Capture
      → Option Value
      → Bool
      → String
      → List ProviderCall
  unfolding quack_context_details
  quack_details duck c e details handled mechanism =
      quack_context_details duck (background c) e details handled mechanism

  unfoldable pub log_context :
      Option Duck → Circumstances → LevelInput → String → Option Value → List ProviderCall
  unfolding log_context_at
  log_context duck c severity message details = log_context_at duck c none severity message details

  unfoldable pub log :
      Option Duck → Circumstances → LevelInput → String → Option Value → List ProviderCall
  unfolding log_context
  log duck c severity message details = log_context duck (background c) severity message details

  unfoldable pub capture_transaction :
      Option Duck → Circumstances → Option Transaction → List ProviderCall
  unfolding capture_transaction_context
  capture_transaction duck c t = capture_transaction_context duck (background c) t

module _ ⦃r : Reflection⦄ where
  -- The methods that change the scope, from `SetTag` to `ClearBreadcrumbs`, at `runtime.Version()`. All but two
  -- pass their arguments on.
  unfoldable pub change : String → Call → Option Duck → Option Duck
  unfolding set_duck_sdk set_duck_runtime
  change version c none = none
  change version (sets_sdk value) (some d) = some (set_duck_sdk value d)
  change version (sets_runtime value) (some d) = some (set_duck_runtime version value d)
  change version c (some d) = some (record d { scope = Calls.call c d.scope })

  unfoldable pub changes : String → List Call → Option Duck → Option Duck
  unfolding change
  changes version [] duck = duck
  changes version (c ∷ cs) duck = changes version cs (change version c duck)
