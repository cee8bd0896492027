-- ===== src/Pipeline.antt =====
-- core/duck.go and providers/duckbug/provider.go together: from a call of the client to the transport.
pub mod Settings
pub mod Calls
pub mod Ids
pub mod Masked
use duckbug_go.Base.{String, ℕ, Bool, Option, none, some, List, [], ◌∷◌, ◌++◌, ◌==◌, false, ◌≡◌}
use duckbug_go.Base.Int.{ℤ}
use duckbug_go.Text.{Unicode}
use duckbug_go.Value.{Value}
use duckbug_go.Core.Util.{Reflection}
use duckbug_go.Core.Types.{Event}
use duckbug_go.Core.Level.{LevelInput}
use duckbug_go.Core.Transaction.{Transaction}
use duckbug_go.Core.Duck.{Duck, Circumstances, Capture, ProviderCall, captures, flushes}
use duckbug_go.Core.Duck.Dispatch.{capture_error_at, log_context_at, capture_transaction_context}
use duckbug_go.Provider.State.Run.{Op, capture, take, tick}

-- A call of the client that captures something.
pub data Action : Type 0 where
  captures_error : Circumstances → Option ℤ → Capture → Option Value → Action
  captures_log : Circumstances → Option ℤ → LevelInput → String → Option Value → Action
  captures_transaction : Circumstances → Transaction → Action

module _ ⦃u : Unicode⦄ ⦃r : Reflection⦄ (d : Duck) where
  unfoldable pub act : Action → List ProviderCall
  unfolding capture_error_at log_context_at capture_transaction_context
  act (captures_error c at e details) = capture_error_at (some d) c at e details
  act (captures_log c at severity message details) =
      log_context_at (some d) c at severity message details
  act (captures_transaction c t) = capture_transaction_context (some d) c (some t)

  unfoldable pub acts : List Action → List ProviderCall
  unfolding act
  acts [] = []
  acts (a ∷ actions) = act a ++ acts actions

-- Whether a call hands an event to the provider with this number.
abbrev pub is_for : ℕ → ProviderCall → Bool
is_for number (captures to e) = to == number
is_for number (flushes to) = false

-- What one provider does while it is called: it takes each event, under an id that `NewEventID` may give, and
-- between the calls its worker and its ticker turn any number of times. The other calls pass it by;
-- a `Flush` is some of those turns.
pub data Interleaves (number : ℕ) : List ProviderCall → List Op → Type 0 where
  done : Interleaves number [] []
  takes :
      {calls : List ProviderCall} {ops : List Op} (minted : String) (e : Event)
      → Interleaves number calls ops
      → Interleaves number (captures number e ∷ calls) (capture minted e ∷ ops)
  passes :
      {calls : List ProviderCall} {ops : List Op} (c : ProviderCall)
      → is_for number c ≡ false
      → Interleaves number calls ops
      → Interleaves number (c ∷ calls) ops
  works :
      {calls : List ProviderCall} {ops : List Op}
      → Interleaves number calls ops
      → Interleaves number calls (take ∷ ops)
  ticks :
      {calls : List ProviderCall} {ops : List Op}
      → Interleaves number calls ops
      → Interleaves number calls (tick ∷ ops)
