-- ===== src/Integrations/Grpc/Masked.antt =====
-- integrations/grpc/interceptor.go, down to the providers: what is masked in the events of a call.
use duckbug_go.Base.{
  ℕ, String, Bool, true, false, Option, none, some, [], ◌∷◌, inl, inr, Bool-cases, if◌then◌else◌,
  All, All-append,
}
use duckbug_go.Text.{Unicode}
use duckbug_go.Value.{Fields, end}
use duckbug_go.Pond.{RequestContext}
use duckbug_go.Pond.Masked.{IsPlainFields}
use duckbug_go.Core.Util.{Reflection}
use duckbug_go.Core.Transaction.{Transaction, new_transaction, set_context, finish}
use duckbug_go.Core.Duck.{Duck}
use duckbug_go.Core.Duck.Plain.{OptPlain}
use duckbug_go.Core.Duck.Safe.{RequestPlain, ScopePlain}
use duckbug_go.Core.Duck.Delivered.{IsSafeCall}
use duckbug_go.Integrations.Rules.{Values, Network, put_values, has_suffix, skips}
use duckbug_go.Integrations.Report.{
  Panic, quack_context_details, quack_recovered_panic, Draws, deliver, start_transaction_named,
}
use duckbug_go.Integrations.Report.Delivered.{
  ReportPlain, deliver-IsSafeCall, add_measurement-TransactionPlain, OptTransactionPlain,
  one-ReportPlain,
}
use duckbug_go.Integrations.Middleware.Plain.{put_values-IsPlain}
use duckbug_go.Integrations.Grpc.Options.{Config, Code, internal}
use duckbug_go.Integrations.Grpc.Capture.{
  Codes, RpcError, Incoming, code_of, method_of, should_ignore_method, metadata_from,
  metadata_to_map, build_request_context, transaction_name, described, start_transaction, finished,
  capture_transaction, capture_error,
}
use duckbug_go.Integrations.Grpc.{
  RpcEnding, returns, panics, Ambient, Exchange, recovered_reports, settle, intercept,
}

metadata_from-IsPlain :
    (md : Values) (out : Fields) → IsPlainFields out → IsPlainFields (metadata_from md out)
unfolding metadata_from
metadata_from-IsPlain [] out h = h
metadata_from-IsPlain ((k, xs) ∷ md) out h =
    metadata_from-IsPlain md _ (skipped (has_suffix k "-bin"))
  where
    skipped : (b : Bool) → IsPlainFields (if b then out else put_values k xs out)
    skipped true = h
    skipped false = put_values-IsPlain k xs out h

metadata_to_map-OptPlain : (md : Option Values) → OptPlain (metadata_to_map md)
unfolding metadata_to_map
metadata_to_map-OptPlain none = tt
metadata_to_map-OptPlain (some []) = tt
metadata_to_map-OptPlain (some (x ∷ md)) = metadata_from-IsPlain (x ∷ md) end tt

if-OptPlain : (b : Bool) (m : Option Fields) → OptPlain m → OptPlain (if b then m else none)
if-OptPlain true m h = h
if-OptPlain false m h = tt

context-RequestPlain :
    ⦃n : Network⦄ (i : Incoming) (config : Config)
    → RequestPlain (some (build_request_context i config))
unfolding build_request_context
context-RequestPlain i config = (
  if-OptPlain config.capture_metadata _ (metadata_to_map-OptPlain i.metadata),
  tt,
  tt,
  tt,
  tt,
  tt,
)

module _ ⦃r : Reflection⦄ ⦃c : Codes⦄ (duck : Option Duck) (config : Config) (a : Ambient) where
  captured-ReportPlain :
      (duck : Option Duck) (code : Code) (tx : Option Transaction) (force : Bool)
      → OptTransactionPlain tx
      → All ReportPlain (capture_transaction duck code tx force config a.draw a.finish_time)
  unfolding capture_transaction finished finish
  captured-ReportPlain none code tx force h = tt
  captured-ReportPlain (some d) code none force h = tt
  captured-ReportPlain (some d) code (some tx) force h =
      one-ReportPlain _ _ (add_measurement-TransactionPlain "grpc.status_code" _ "code" tx h)

  failed-ReportPlain :
      (duck : Option Duck) (full_method : String) (e : Option RpcError)
      → All ReportPlain (capture_error a.fail duck full_method (code_of e) e config)
  unfolding capture_error quack_context_details
  failed-ReportPlain none full_method e = tt
  failed-ReportPlain (some d) full_method e =
      elim (Bool-cases (skips config.should_capture (code_of e))) [
        | inl q ↦ rw q (tt, tt)
        | inr q ↦ rw q tt
      ]

  recovered-ReportPlain :
      (duck : Option Duck) (mechanism : String) (p : Panic)
      → All ReportPlain (recovered_reports mechanism duck config p)
  unfolding recovered_reports quack_recovered_panic
  recovered-ReportPlain none mechanism p = tt
  recovered-ReportPlain (some d) mechanism p = elim (Bool-cases config.capture_panics) [
    | inl q ↦ rw q (tt, tt)
    | inr q ↦ rw q tt
  ]

  described-TransactionPlain :
      (full_method name : String)
      → OptTransactionPlain (
          described full_method
            (start_transaction_named duck name "grpc.server" a.trace_id a.span_id a.now))
  unfolding start_transaction_named new_transaction set_context
  described-TransactionPlain full_method name = named duck
    where
      named :
          (duck : Option Duck)
          → OptTransactionPlain (
              described full_method
                (start_transaction_named duck name "grpc.server" a.trace_id a.span_id a.now))
      named none = tt
      named (some d) = (tt, tt)

  started-TransactionPlain :
      (full_method : String)
      → OptTransactionPlain (start_transaction duck full_method config a.trace_id a.span_id a.now)
  unfolding start_transaction
  started-TransactionPlain full_method = elim (Bool-cases config.capture_transactions) [
    | inl q ↦ rw q (described-TransactionPlain full_method (transaction_name full_method))
    | inr q ↦ rw q tt
  ]

-- What the theorem asks of an exchange.
abbrev ExchangePlain {ℓ} : {R : Type ℓ} → Exchange R → Type 0
ExchangePlain x = RequestPlain x.context × All ReportPlain x.reports

either-ExchangePlain {ℓ} :
    {R : Type ℓ} (b : Bool) (x y : Exchange R)
    → ExchangePlain x
    → ExchangePlain y
    → ExchangePlain (if b then x else y)
either-ExchangePlain true x y h i = h
either-ExchangePlain false x y h i = i

settle-ExchangePlain {ℓ} :
    {R : Type ℓ} ⦃r : Reflection⦄ ⦃c : Codes⦄ (mechanism : String) (duck : Option Duck)
    (config : Config) (a : Ambient) (full_method : String) (context : Option RequestContext)
    (tx : Option Transaction) (e : RpcEnding R)
    → RequestPlain context
    → OptTransactionPlain tx
    → ExchangePlain (settle mechanism duck config a full_method context tx e)
unfolding settle
settle-ExchangePlain mechanism duck config a full_method context tx (returns resp e) q h = (
  q,
  All-append ReportPlain _ _ (failed-ReportPlain duck config a duck full_method e)
      (captured-ReportPlain duck config a duck (code_of e) tx false h),
)
settle-ExchangePlain mechanism duck config a full_method context tx (panics p) q h = (
  q,
  All-append ReportPlain _ _ (recovered-ReportPlain duck config a duck mechanism p)
      (captured-ReportPlain duck config a duck internal tx true h),
)

intercept-ExchangePlain {ℓ} :
    {R : Type ℓ} ⦃r : Reflection⦄ ⦃n : Network⦄ ⦃c : Codes⦄ (mechanism : String)
    (duck : Option Duck) (config : Config) (a : Ambient) (i : Incoming)
    (outer : Option RequestContext) (handler : Option RequestContext → RpcEnding R)
    → RequestPlain outer
    → ExchangePlain (intercept mechanism duck config a i outer handler)
unfolding intercept
intercept-ExchangePlain mechanism duck config a i outer handler o =
    let context = some (build_request_context i config) in
    either-ExchangePlain (should_ignore_method (method_of i) config) _ _ (o, tt)
      (settle-ExchangePlain mechanism duck config a (method_of i) context _ (handler context)
        (context-RequestPlain i config) (started-TransactionPlain duck config a (method_of i)))

-- Whatever the call, the configuration and the handler, every entry but the breadcrumbs, the chain of exceptions
-- and the stack of every event that an interceptor hands to the providers holds the mask at every sensitive key,
-- at any depth, provided the maps of the scope, and of the request that the context had before, are JSON-like data.
pub intercept-IsSafeCall {ℓ} :
    {R : Type ℓ} ⦃u : Unicode⦄ ⦃r : Reflection⦄ ⦃n : Network⦄ ⦃c : Codes⦄ (mechanism : String)
    (d : Duck) (config : Config) (a : Ambient) (i : Incoming) (outer : Option RequestContext)
    (handler : Option RequestContext → RpcEnding R) (draws : Draws) (k : ℕ)
    → ScopePlain d.scope
    → RequestPlain outer
    → All (IsSafeCall d.pond) (
        deliver
          (some d)
          (intercept mechanism (some d) config a i outer handler).context
          draws
          k
          (intercept mechanism (some d) config a i outer handler).reports)
intercept-IsSafeCall mechanism d config a i outer handler draws k h o =
    let (q, reports) = intercept-ExchangePlain mechanism (some d) config a i outer handler o in
    deliver-IsSafeCall d _ draws k _ h q reports
