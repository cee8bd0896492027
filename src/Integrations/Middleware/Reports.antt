-- ===== src/Integrations/Middleware/Reports.antt =====
-- integrations/nethttp/middleware.go: the transactions and the errors in what a request leaves, call by call.
use duckbug_go.Base.{
  ℕ, Bool, true, false, not, ◌&&◌, ◌||◌, leb, ltb, Option, none, some, List, [], ◌∷◌, ◌++◌, ◌≡◌,
  refl, ap, ◌∙◌, inl, inr, Bool-cases, if◌then◌else◌, append-nil,
}
use duckbug_go.Core.Util.{Reflection}
use duckbug_go.Core.Transaction.{Transaction}
use duckbug_go.Core.Duck.{Duck}
use duckbug_go.Integrations.Rules.{sampled}
use duckbug_go.Integrations.Report.{
  Panic, Report, error_report, transaction_report, quack_context_details, quack_recovered_panic,
}
use duckbug_go.Integrations.Tracker.{Call}
use duckbug_go.Integrations.Tracker.Status.{first_status}
use duckbug_go.Integrations.Tracker.Marks.{takes_over, reported_status}
use duckbug_go.Integrations.Middleware.Requests.{Request, Config}
use duckbug_go.Integrations.Middleware.Capture.{
  should_capture_transaction, finished, capture_transaction, capture_handled5xx,
}
use duckbug_go.Integrations.Middleware.{
  Ending, returns, panics, Ambient, tracked, recovered_reports,
}

unfoldable pub transactions : List Report → List Transaction
transactions [] = []
transactions (error_report e details ∷ reports) = transactions reports
transactions (transaction_report t ∷ reports) = t ∷ transactions reports

-- Whether each reported error was handled.
unfoldable pub errors : List Report → List Bool
errors [] = []
errors (error_report e details ∷ reports) = e.handled ∷ errors reports
errors (transaction_report t ∷ reports) = errors reports

transactions-append :
    (xs ys : List Report) → transactions (xs ++ ys) ≡ transactions xs ++ transactions ys
unfolding transactions
transactions-append [] ys = refl
transactions-append (error_report e details ∷ xs) ys = transactions-append xs ys
transactions-append (transaction_report t ∷ xs) ys = ap (λ ts. t ∷ ts) (transactions-append xs ys)

errors-append : (xs ys : List Report) → errors (xs ++ ys) ≡ errors xs ++ errors ys
unfolding errors
errors-append [] ys = refl
errors-append (error_report e details ∷ xs) ys = ap (λ es. e.handled ∷ es) (errors-append xs ys)
errors-append (transaction_report t ∷ xs) ys = errors-append xs ys

pub transactions-after :
    (xs ys : List Report) → transactions xs ≡ [] → transactions (xs ++ ys) ≡ transactions ys
transactions-after xs ys e = transactions-append xs ys ∙ ap (λ ts. ts ++ transactions ys) e

pub errors-before : (xs ys : List Report) → errors ys ≡ [] → errors (xs ++ ys) ≡ errors xs
errors-before xs ys e = errors-append xs ys ∙ ap (λ es. errors xs ++ es) e ∙ append-nil (errors xs)

abbrev pub has_returned : Ending → Bool
has_returned returns = true
has_returned (panics p) = false

-- The status of a response, by the calls on the writer and by how the handler ended.
abbrev pub answered : Ending → List Call → ℕ
answered e cs = reported_status (has_returned e) (first_status cs) (takes_over cs)

-- The transaction that a request leaves: always after a panic or a server error, and else if it is sampled.
unfoldable pub expected_transactions :
    ⦃r : Reflection⦄ → Config → Ambient → Option Transaction → Ending → ℕ → List Transaction
expected_transactions config a none e status = []
expected_transactions config a (some tx) e status =
    if not (has_returned e) || leb 500 status || sampled a.draw config.transaction_sample_rate
    then finished status a.finish_time tx ∷ []
    else []

-- The errors that a request leaves: the panic, as not handled, or the server error, as handled.
unfoldable pub expected_errors : Config → Ending → ℕ → List Bool
expected_errors config returns status =
    if config.capture_handled5xx && leb 500 status then true ∷ [] else []
expected_errors config (panics p) status = if config.capture_panics then false ∷ [] else []

pub gated :
    (b c x : Bool) (t : Transaction)
    → transactions (if b || (if c then true else x) then transaction_report t ∷ [] else [])
      ≡ (if b || c || x then t ∷ [] else [])
unfolding transactions
gated true c x t = refl
gated false true x t = refl
gated false false true t = refl
gated false false false t = refl

pub no_errors :
    (b : Bool) (t : Transaction) → errors (if b then transaction_report t ∷ [] else []) ≡ []
unfolding errors
no_errors true t = refl
no_errors false t = refl

module _ ⦃r : Reflection⦄ (d : Duck) (config : Config) (a : Ambient) where
  unfoldable pub captured : (status : ℕ) (tx : Option Transaction) (force : Bool) → List Report
  captured status tx force =
      capture_transaction (some d) status tx force config a.draw a.finish_time

  pub captured-transactions :
      (status : ℕ) (tx : Option Transaction) (e : Ending)
      → transactions (captured status tx (not (has_returned e)))
        ≡ expected_transactions config a tx e status
  unfolding captured capture_transaction should_capture_transaction expected_transactions
      transactions
  captured-transactions status none e = refl
  captured-transactions status (some t) e =
      gated (not (has_returned e)) (leb 500 status) (sampled a.draw config.transaction_sample_rate)
        (finished status a.finish_time t)

  pub captured-errors :
      (status : ℕ) (tx : Option Transaction) (force : Bool) → errors (captured status tx force) ≡ []
  unfolding captured capture_transaction errors
  captured-errors status none force = refl
  captured-errors status (some t) force = no_errors _ (finished status a.finish_time t)

  unfoldable pub handled : (req : Request) (cs : List Call) → List Report
  handled req cs =
      capture_handled5xx a.text a.unmarshal a.fail (some d) req (tracked config cs) config

  pub handled-transactions : (req : Request) (cs : List Call) → transactions (handled req cs) ≡ []
  unfolding handled capture_handled5xx quack_context_details transactions
  handled-transactions req cs =
      elim (Bool-cases (not config.capture_handled5xx || ltb (tracked config cs).status_code 500)) [
        | inl e ↦ rw e refl
        | inr e ↦ rw e refl
      ]

  pub handled-errors :
      (req : Request) (cs : List Call)
      → errors (handled req cs) ≡ (
          if not config.capture_handled5xx || ltb (tracked config cs).status_code 500
          then []
          else true ∷ [])
  unfolding handled capture_handled5xx quack_context_details errors
  handled-errors req cs =
      elim (Bool-cases (not config.capture_handled5xx || ltb (tracked config cs).status_code 500)) [
        | inl e ↦ rw e refl
        | inr e ↦ rw e refl
      ]

  pub recovered-transactions : (p : Panic) → transactions (recovered_reports (some d) config p) ≡ []
  unfolding recovered_reports quack_recovered_panic transactions
  recovered-transactions p = elim (Bool-cases config.capture_panics) [
    | inl e ↦ rw e refl
    | inr e ↦ rw e refl
  ]

  pub recovered-errors :
      (p : Panic)
      → errors (recovered_reports (some d) config p)
        ≡ (if config.capture_panics then false ∷ [] else [])
  unfolding recovered_reports quack_recovered_panic errors
  recovered-errors p = elim (Bool-cases config.capture_panics) [
    | inl e ↦ rw e refl
    | inr e ↦ rw e refl
  ]
