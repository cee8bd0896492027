-- ===== src/Integrations/Grpc/Outcomes.antt =====
-- integrations/grpc/interceptor.go: what is reported of a call, and how it ends.
use duckbug_go.Base.{
  String, Bool, true, false, not, ◌||◌, Option, none, some, List, [], ◌∷◌, ◌≡◌, ◌↔◌, refl, sym, ◌∙◌,
  inl, inr, Bool-cases, if◌then◌else◌, arith, str_eq, eq_iff, ◌≢◌,
}
use duckbug_go.Pond.{RequestContext}
use duckbug_go.Core.Util.{Reflection}
use duckbug_go.Core.Transaction.{Transaction}
use duckbug_go.Core.Duck.{Duck}
use duckbug_go.Integrations.Rules.{Network, skips, sampled}
use duckbug_go.Integrations.Report.{Panic, quack_context_details, quack_recovered_panic}
use duckbug_go.Integrations.Middleware.Reports.{
  transactions, errors, transactions-after, errors-before, gated, no_errors,
}
use duckbug_go.Integrations.Grpc.Options.{
  Config, Code, ok, canceled, unknown, invalid_argument, deadline_exceeded, not_found,
  already_exists, permission_denied, resource_exhausted, failed_precondition, aborted, out_of_range,
  unimplemented, internal, unavailable, data_loss, unauthenticated, other_code,
  default_should_capture,
}
use duckbug_go.Integrations.Grpc.Capture.{
  Codes, RpcError, Incoming, code_of, method_of, should_ignore_method, build_request_context,
  start_transaction, should_capture_transaction, transaction_status_from_code, finished,
  capture_transaction, capture_error,
}
use duckbug_go.Integrations.Grpc.{
  RpcEnding, returns, panics, Ambient, Exchange, internal_error, recovered_reports, settle,
  intercept,
}

-- The code that a call ends with.
abbrev pub final_code {ℓ} : {R : Type ℓ} → RpcEnding R → Code
final_code (returns resp e) = code_of e
final_code (panics p) = internal

abbrev pub has_returned {ℓ} : {R : Type ℓ} → RpcEnding R → Bool
has_returned (returns resp e) = true
has_returned (panics p) = false

-- The transaction that a call leaves: after a panic, at a code that is captured, or if it is sampled.
unfoldable pub expected_transactions {ℓ} :
    ⦃r : Reflection⦄
    → ⦃c : Codes⦄ → {R : Type ℓ} → Config
    → Ambient
    → Option Transaction
    → RpcEnding R
    → List Transaction
expected_transactions config a none e = []
expected_transactions config a (some tx) e =
    if not (has_returned e)
      || skips config.should_capture (final_code e)
      || sampled a.draw config.transaction_sample_rate
    then finished (final_code e) a.finish_time tx ∷ []
    else []

-- The errors that a call leaves: the panic, as not handled, or the error of a captured code, as handled.
unfoldable pub expected_errors {ℓ} : {R : Type ℓ} → Config → RpcEnding R → List Bool
expected_errors config (returns resp e) =
    if skips config.should_capture (code_of e) then true ∷ [] else []
expected_errors config (panics p) = if config.capture_panics then false ∷ [] else []

-- How a call ends: a panic that is not to be repeated ends as an internal error.
unfoldable pub expected_ending {ℓ} : {R : Type ℓ} → Config → RpcEnding R → RpcEnding R
expected_ending config (returns resp e) = returns resp e
expected_ending config (panics p) =
    if config.repanic then panics p else returns none (some internal_error)

-- All that a call leaves: its transactions, its errors, and its end.
abbrev pub left {ℓ} : {R : Type ℓ} → Exchange R → List Transaction × List Bool × RpcEnding R
left x = (transactions x.reports, errors x.reports, x.ending)

abbrev pub expected {ℓ} :
    ⦃r : Reflection⦄
    → ⦃c : Codes⦄ → {R : Type ℓ} → Config
    → Ambient
    → Option Transaction
    → RpcEnding R
    → List Transaction × List Bool × RpcEnding R
expected config a tx e =
    (expected_transactions config a tx e, expected_errors config e, expected_ending config e)

abbrev triple {ℓ} :
    {R : Type ℓ}
    → List Transaction
    → List Bool
    → RpcEnding R
    → List Transaction × List Bool × RpcEnding R
triple ts es x = (ts, es, x)

both {ℓ} :
    {R : Type ℓ} {ts ts' : List Transaction} {es es' : List Bool} (x : RpcEnding R)
    → ts ≡ ts'
    → es ≡ es'
    → triple ts es x ≡ triple ts' es' x
both x p q = rw (p, q) refl

module _ ⦃r : Reflection⦄ ⦃c : Codes⦄ (d : Duck) (config : Config) (a : Ambient) where
  captured-transactions {ℓ} :
      {R : Type ℓ} (tx : Option Transaction) (e : RpcEnding R)
      → transactions (
          capture_transaction
            (some d)
            (final_code e)
            tx
            (not (has_returned e))
            config
            a.draw
            a.finish_time)
        ≡ expected_transactions config a tx e
  unfolding capture_transaction should_capture_transaction expected_transactions transactions
  captured-transactions none e = refl
  captured-transactions (some t) e =
      gated (not (has_returned e)) (skips config.should_capture (final_code e))
        (sampled a.draw config.transaction_sample_rate) (finished (final_code e) a.finish_time t)

  captured-errors :
      (code : Code) (tx : Option Transaction) (force : Bool)
      → errors (capture_transaction (some d) code tx force config a.draw a.finish_time) ≡ []
  unfolding capture_transaction errors
  captured-errors code none force = refl
  captured-errors code (some t) force = no_errors _ (finished code a.finish_time t)

  failed-reports :
      (full_method : String) (e : Option RpcError)
      → (transactions (capture_error a.fail (some d) full_method (code_of e) e config) ≡ [])
        × (errors (capture_error a.fail (some d) full_method (code_of e) e config)
            ≡ (if skips config.should_capture (code_of e) then true ∷ [] else []))
  unfolding capture_error quack_context_details transactions errors
  failed-reports full_method e = elim (Bool-cases (skips config.should_capture (code_of e))) [
    | inl q ↦ rw q (refl, refl)
    | inr q ↦ rw q (refl, refl)
  ]

  recovered-reports :
      (mechanism : String) (p : Panic)
      → (transactions (recovered_reports mechanism (some d) config p) ≡ [])
        × (errors (recovered_reports mechanism (some d) config p)
            ≡ (if config.capture_panics then false ∷ [] else []))
  unfolding recovered_reports quack_recovered_panic transactions errors
  recovered-reports mechanism p = elim (Bool-cases config.capture_panics) [
    | inl q ↦ rw q (refl, refl)
    | inr q ↦ rw q (refl, refl)
  ]

  settle-left {ℓ} :
      {R : Type ℓ} (mechanism full_method : String) (context : Option RequestContext)
      (tx : Option Transaction) (e : RpcEnding R)
      → left (settle mechanism (some d) config a full_method context tx e) ≡ expected config a tx e
  unfolding settle expected_errors expected_ending
  settle-left mechanism full_method context tx (returns resp e) =
      let (no_transactions, one_error) = failed-reports full_method e in
      both (returns resp e)
        (transactions-after _ _ no_transactions ∙ captured-transactions tx (returns resp e))
        (errors-before _ _ (captured-errors (code_of e) tx false) ∙ one_error)
  settle-left mechanism full_method context tx (panics p) =
      let (no_transactions, one_error) = recovered-reports mechanism p in
      both _ (transactions-after _ _ no_transactions ∙ captured-transactions tx (panics p))
        (errors-before _ _ (captured-errors internal tx true) ∙ one_error)

-- An interceptor reports of a call that is not ignored the transaction that was started for it exactly if the
-- handler panicked, the code is one that is captured, or the random number is below the sample rate, finished by
-- the code; and one error, the panic as not handled, if panics are captured, or the error of a captured code, as
-- handled. The handler's response and error are passed on; a panic is repeated or ends as an internal error.
pub intercept-left {ℓ} :
    {R : Type ℓ} ⦃r : Reflection⦄ ⦃n : Network⦄ ⦃c : Codes⦄ (mechanism : String) (d : Duck)
    (config : Config) (a : Ambient) (i : Incoming) (outer : Option RequestContext)
    (handler : Option RequestContext → RpcEnding R)
    → should_ignore_method (method_of i) config ≡ false
    → left (intercept mechanism (some d) config a i outer handler)
      ≡ expected config a
          (start_transaction (some d) (method_of i) config a.trace_id a.span_id a.now)
          (handler (some (build_request_context i config)))
unfolding intercept
intercept-left mechanism d config a i outer handler h =
    rw h (settle-left d config a mechanism (method_of i) _ _ _)

false≢true : false ≢ true
false≢true h = ground arith

other_status :
    (s : String) → str_eq s "internal_error" ≡ false → (false ≡ true) ↔ (s ≡ "internal_error")
other_status s h =
    (λ e. absurd (false≢true e), λ e. absurd (false≢true (sym h ∙ (eq_iff s "internal_error").1 e)))

-- The codes that are captured as errors by default are exactly those whose transactions end as internal errors.
pub default_should_capture-status :
    (code : Code)
    → (default_should_capture code ≡ true) ↔ (transaction_status_from_code code ≡ "internal_error")
unfolding default_should_capture transaction_status_from_code
default_should_capture-status ok = other_status _ refl
default_should_capture-status canceled = other_status _ refl
default_should_capture-status unknown = (λ h. refl, λ h. refl)
default_should_capture-status invalid_argument = other_status _ refl
default_should_capture-status deadline_exceeded = (λ h. refl, λ h. refl)
default_should_capture-status not_found = other_status _ refl
default_should_capture-status already_exists = other_status _ refl
default_should_capture-status permission_denied = other_status _ refl
default_should_capture-status resource_exhausted = other_status _ refl
default_should_capture-status failed_precondition = other_status _ refl
default_should_capture-status aborted = other_status _ refl
default_should_capture-status out_of_range = other_status _ refl
default_should_capture-status unimplemented = (λ h. refl, λ h. refl)
default_should_capture-status internal = (λ h. refl, λ h. refl)
default_should_capture-status unavailable = (λ h. refl, λ h. refl)
default_should_capture-status data_loss = (λ h. refl, λ h. refl)
default_should_capture-status unauthenticated = other_status _ refl
default_should_capture-status (other_code n) = other_status _ refl
