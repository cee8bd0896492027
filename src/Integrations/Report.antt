-- ===== src/Integrations/Report.antt =====
-- core/duck.go, as the integrations call it: the calls of a client that report something, and what they deliver
-- to the providers. Each call takes an event id and a time of its own, from a sequence of both.
pub mod Delivered
use duckbug_go.Base.{
  ℕ, suc, String, str_eq, Bool, true, false, Option, none, some, List, [], ◌∷◌, ◌++◌, if◌then◌else◌,
}
use duckbug_go.Base.Int.{ℤ}
use duckbug_go.Text.{Unicode}
use duckbug_go.Value.{Value, Fields, end, field}
use duckbug_go.Value
use duckbug_go.Pond.{RequestContext}
use duckbug_go.Core.Util.{Reflection, normalize_value}
use duckbug_go.Core.Stack.{Frame, ErrorChain}
use duckbug_go.Core.Transaction.{Transaction, new_transaction}
use duckbug_go.Core.Duck.{Duck, Circumstances, Capture, ProviderCall}
use duckbug_go.Core.Duck.Dispatch.{capture_error_at, capture_transaction_context}

-- An error as the client meets it: its text, its chain of causes, and the frames of the call.
pub record Failure : Type 0 where
  pub message : String
  pub chain : ErrorChain
  pub frames : List Frame

-- A recovered value, the error that `fmt.Errorf("panic: %v", recovered)` makes of it, and `debug.Stack()`.
pub record Panic : Type 0 where
  pub recovered : Value
  pub failure : Failure
  pub stack : String

pub data Report : Type 0 where
  error_report : Capture → Option Value → Report
  transaction_report : Transaction → Report

abbrev or_mechanism : String → String → String
or_mechanism fallback mechanism = if str_eq mechanism "" then fallback else mechanism

-- `QuackContextDetails`, at an error that is not nil.
unfoldable pub quack_context_details : Failure → Option Value → Bool → String → Report
quack_context_details e details handled mechanism =
    error_report
      (record {
        message = e.message;
        chain = e.chain;
        handled = handled;
        mechanism = or_mechanism "manual" mechanism;
        stack_override = "";
        frames = e.frames;
      })
      details

-- `QuackRecoveredPanicContext`, at a value that is not nil.
unfoldable pub quack_recovered_panic : ⦃r : Reflection⦄ → Panic → String → Report
quack_recovered_panic p mechanism =
    error_report
      (record {
        message = p.failure.message;
        chain = p.failure.chain;
        handled = false;
        mechanism = or_mechanism "panic_recover" mechanism;
        stack_override = p.stack;
        frames = p.failure.frames;
      })
      (some (Value.map (field "panic" (normalize_value p.recovered) end)))

-- `StartTransaction`; the last three arguments are the new ids and the time. A new id is not empty, so that
-- `newTransaction` draws no other.
unfoldable pub start_transaction_named :
    Option Duck → String → String → String → String → ℤ → Option Transaction
unfolding new_transaction
start_transaction_named none name op trace_id span_id now = none
start_transaction_named (some d) name op trace_id span_id now =
    some (new_transaction name op trace_id span_id now trace_id span_id)

-- The ids and times that the client draws, by the number of the call.
abbrev pub Draws : Type 0
Draws = ℕ → String × ℤ

abbrev pub circumstances : Option RequestContext → String × ℤ → Circumstances
circumstances request (event_id, now) = record { event_id = event_id; now = now; request = request }

module _ ⦃u : Unicode⦄ ⦃r : Reflection⦄ (duck : Option Duck) where
  unfoldable pub perform : Circumstances → Report → List ProviderCall
  unfolding capture_error_at capture_transaction_context
  perform c (error_report e details) = capture_error_at duck c none e details
  perform c (transaction_report t) = capture_transaction_context duck c (some t)

  -- What a sequence of calls delivers.
  unfoldable pub deliver : Option RequestContext → Draws → ℕ → List Report → List ProviderCall
  unfolding perform
  deliver request draws n [] = []
  deliver request draws n (report ∷ reports) =
      perform (circumstances request (draws n)) report ++ deliver request draws (suc n) reports
