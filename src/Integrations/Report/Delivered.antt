-- ===== src/Integrations/Report/Delivered.antt =====
-- core/duck.go: what the calls of an integration hand to the providers.
use duckbug_go.Base.{
  Bool, true, false, if◌then◌else◌, suc, ℕ, String, str_eq, inl, inr, Bool-cases, Option, none,
  some, List, [], ◌∷◌, All, All-append,
}
use duckbug_go.Text.{Unicode, trim_space}
use duckbug_go.Value.{Value, Fields, entries}
use duckbug_go.Pond.{RequestContext}
use duckbug_go.Core.Util.{Reflection}
use duckbug_go.Core.Transaction.{Transaction, add_measurement, measurement}
use duckbug_go.Core.Types.{errors, transactions}
use duckbug_go.Core.Duck.{Duck, Circumstances}
use duckbug_go.Core.Duck.Dispatch.{capture_error_at, capture_transaction_context}
use duckbug_go.Core.Duck.Safe.{RequestPlain, ScopePlain}
use duckbug_go.Core.Duck.Sanitized.{IsPlainCall, error_payload-AllSafe}
use duckbug_go.Core.Duck.Spans.{TransactionPlain, insert-IsPlain, transaction_payload-AllSafe}
use duckbug_go.Pond.Masked.{IsPlainFields}
use duckbug_go.Core.Util.Normal.{normalize_value-IsPlain}
use duckbug_go.Core.Duck.Plain.{OptPlain}
use duckbug_go.Core.Duck.Delivered.{IsSafeCall, dispatch-IsSafeCall}
use duckbug_go.Integrations.Report.{
  Report, error_report, transaction_report, Draws, circumstances, perform, deliver,
}

measurement-IsPlain :
    ⦃r : Reflection⦄ (value : Value) (unit : String) → IsPlainFields (measurement value unit)
measurement-IsPlain value unit = elim (Bool-cases (str_eq (trim_space unit) "")) [
  | inl e ↦ rw e (normalize_value-IsPlain value, tt)
  | inr e ↦ rw e (insert-IsPlain "unit" _ _ tt (normalize_value-IsPlain value, tt))
]

entries-IsPlain : (m : Option Fields) → OptPlain m → IsPlainFields (entries m)
entries-IsPlain none h = tt
entries-IsPlain (some fs) h = h

pub add_measurement-TransactionPlain :
    ⦃r : Reflection⦄ (key : String) (value : Value) (unit : String) (t : Transaction)
    → TransactionPlain t
    → TransactionPlain (add_measurement key value unit t)
unfolding add_measurement
add_measurement-TransactionPlain key value unit t h =
    elim (Bool-cases (str_eq (trim_space key) "")) [
      | inl e ↦ rw e h
      | inr e ↦ rw e (
        insert-IsPlain _ _ _ (measurement-IsPlain value unit) (entries-IsPlain t.measurements h.0),
        h.1,
      )
    ]

-- The maps of a reported transaction are JSON-like data.
abbrev pub ReportPlain : Report → Type 0
ReportPlain (error_report e details) = Unit
ReportPlain (transaction_report t) = TransactionPlain t

abbrev pub OptTransactionPlain : Option Transaction → Type 0
OptTransactionPlain none = Unit
OptTransactionPlain (some tx) = TransactionPlain tx

pub one-ReportPlain :
    (b : Bool) (tx : Transaction)
    → TransactionPlain tx
    → All ReportPlain (if b then transaction_report tx ∷ [] else [])
one-ReportPlain true tx h = (h, tt)
one-ReportPlain false tx h = tt

module _ ⦃u : Unicode⦄ ⦃r : Reflection⦄ (d : Duck) where
  perform-IsSafeCall :
      (c : Circumstances) (report : Report)
      → IsPlainCall c d
      → ReportPlain report
      → All (IsSafeCall d.pond) (perform (some d) c report)
  unfolding perform capture_error_at capture_transaction_context
  perform-IsSafeCall c (error_report e details) h i =
      dispatch-IsSafeCall d.pond d errors _ (error_payload-AllSafe c none e details d h)
  perform-IsSafeCall c (transaction_report t) h i =
      dispatch-IsSafeCall d.pond d transactions _ (transaction_payload-AllSafe c t d h i)

  pub deliver-IsSafeCall :
      (request : Option RequestContext) (draws : Draws) (n : ℕ) (reports : List Report)
      → ScopePlain d.scope
      → RequestPlain request
      → All ReportPlain reports
      → All (IsSafeCall d.pond) (deliver (some d) request draws n reports)
  unfolding deliver
  deliver-IsSafeCall request draws n [] s q i = tt
  deliver-IsSafeCall request draws n (report ∷ reports) s q i =
      All-append (IsSafeCall d.pond) _ _
        (perform-IsSafeCall (circumstances request (draws n)) report (s, q) i.0)
        (deliver-IsSafeCall request draws (suc n) reports s q i.1)
