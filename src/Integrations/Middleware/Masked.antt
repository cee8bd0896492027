-- ===== src/Integrations/Middleware/Masked.antt =====
-- integrations/nethttp/middleware.go, down to the providers: what is masked in the events of a request.
use duckbug_go.Base.{
  ℕ, Bool, true, false, not, ◌||◌, ltb, ◌==◌, Option, none, some, List, inl, inr, Bool-cases,
  if◌then◌else◌, All, All-append,
}
use duckbug_go.Text.{Unicode}
use duckbug_go.Base.Int.{pos}
use duckbug_go.Value.{int}
use duckbug_go.Pond.{RequestContext}
use duckbug_go.Core.Util.{Reflection}
use duckbug_go.Core.Transaction.{Transaction, new_transaction, set_context, add_measurement, finish}
use duckbug_go.Core.Duck.{Duck}
use duckbug_go.Core.Duck.Spans.{TransactionPlain}
use duckbug_go.Core.Duck.Safe.{RequestPlain, ScopePlain}
use duckbug_go.Core.Duck.Delivered.{IsSafeCall}
use duckbug_go.Integrations.Rules.{Network}
use duckbug_go.Integrations.Report.{
  Panic, quack_context_details, quack_recovered_panic, Draws, deliver, start_transaction_named,
}
use duckbug_go.Integrations.Report.Delivered.{
  ReportPlain, deliver-IsSafeCall, add_measurement-TransactionPlain, OptTransactionPlain,
  one-ReportPlain,
}
use duckbug_go.Integrations.Tracker.{Call}
use duckbug_go.Integrations.Middleware.Requests.{
  Request, Config, Encodings, should_ignore_request, is_websocket_request, build_request_context,
}
use duckbug_go.Integrations.Middleware.Capture.{
  Start, start_transaction, finished, capture_transaction, capture_handled5xx, described,
  join_words, request_method, request_path,
}
use duckbug_go.Integrations.Middleware.Plain.{context-RequestPlain}
use duckbug_go.Integrations.Middleware.{
  Ending, returns, panics, Handler, Ambient, Exchange, tracked, recovered_reports, settle, serve,
  handler_or_not_found,
}

module _ ⦃r : Reflection⦄ (duck : Option Duck) (config : Config) (a : Ambient) where
  measured-TransactionPlain :
      (b : Bool) (status : ℕ) (tx : Transaction)
      → TransactionPlain tx
      → TransactionPlain (
          if b
          then tx
          else add_measurement "http.response.status_code" (int (pos status)) "code" tx)
  measured-TransactionPlain true status tx h = h
  measured-TransactionPlain false status tx h = add_measurement-TransactionPlain _ _ _ tx h

  finished-TransactionPlain :
      (status : ℕ) (tx : Transaction)
      → TransactionPlain tx
      → TransactionPlain (finished status a.finish_time tx)
  unfolding finished finish
  finished-TransactionPlain status tx h = measured-TransactionPlain (status == 0) status tx h

  captured-ReportPlain :
      (duck : Option Duck) (status : ℕ) (tx : Option Transaction) (force : Bool)
      → OptTransactionPlain tx
      → All ReportPlain (capture_transaction duck status tx force config a.draw a.finish_time)
  unfolding capture_transaction
  captured-ReportPlain none status tx force h = tt
  captured-ReportPlain (some d) status none force h = tt
  captured-ReportPlain (some d) status (some tx) force h =
      one-ReportPlain _ _ (finished-TransactionPlain status tx h)

  handled-ReportPlain :
      (duck : Option Duck) (req : Request) (cs : List Call)
      → All ReportPlain
          (capture_handled5xx a.text a.unmarshal a.fail duck req (tracked config cs) config)
  unfolding capture_handled5xx quack_context_details
  handled-ReportPlain none req cs = tt
  handled-ReportPlain (some d) req cs =
      elim (Bool-cases (not config.capture_handled5xx || ltb (tracked config cs).status_code 500)) [
        | inl e ↦ rw e tt
        | inr e ↦ rw e (tt, tt)
      ]

  recovered-ReportPlain :
      (duck : Option Duck) (p : Panic) → All ReportPlain (recovered_reports duck config p)
  unfolding recovered_reports quack_recovered_panic
  recovered-ReportPlain none p = tt
  recovered-ReportPlain (some d) p = elim (Bool-cases config.capture_panics) [
    | inl e ↦ rw e (tt, tt)
    | inr e ↦ rw e tt
  ]

  started-TransactionPlain :
      (req : Request) (s : Start) → OptTransactionPlain (start_transaction duck req config s)
  unfolding start_transaction start_transaction_named new_transaction set_context
  started-TransactionPlain req s =
      elim (Bool-cases (not config.capture_transactions || is_websocket_request (some req))) [
        | inl e ↦ rw e tt
        | inr e ↦ rw e (named duck)
      ]
    where
      named :
          (duck : Option Duck)
          → OptTransactionPlain (
              described req (
                start_transaction_named duck
                  (join_words (request_method req) (request_path req))
                  "http.server"
                  s.trace_id
                  s.span_id
                  s.now))
      named none = tt
      named (some d) = (tt, tt)

  settle-ReportPlain :
      (req : Request) (context : Option RequestContext) (tx : Option Transaction) (cs : List Call)
      (e : Ending)
      → OptTransactionPlain tx
      → All ReportPlain (settle duck config a req context tx cs e).reports
  unfolding settle
  settle-ReportPlain req context tx cs returns h =
      All-append ReportPlain _ _ (handled-ReportPlain duck req cs)
        (captured-ReportPlain duck _ tx false h)
  settle-ReportPlain req context tx cs (panics p) h =
      All-append ReportPlain _ _ (recovered-ReportPlain duck p)
        (captured-ReportPlain duck _ tx true h)

  settle-RequestPlain :
      (req : Request) (context : Option RequestContext) (tx : Option Transaction) (cs : List Call)
      (e : Ending)
      → RequestPlain context
      → RequestPlain (settle duck config a req context tx cs e).context
  unfolding settle
  settle-RequestPlain req context tx cs returns h = h
  settle-RequestPlain req context tx cs (panics p) h = h

-- What the theorem asks of an exchange.
abbrev ExchangePlain : Exchange → Type 0
ExchangePlain x = RequestPlain x.context × All ReportPlain x.reports

either-ExchangePlain :
    (b : Bool) (x y : Exchange)
    → ExchangePlain x
    → ExchangePlain y
    → ExchangePlain (if b then x else y)
either-ExchangePlain true x y h i = h
either-ExchangePlain false x y h i = i

module _ ⦃u : Unicode⦄ ⦃r : Reflection⦄ ⦃n : Network⦄ ⦃e : Encodings⦄ where
  serve-ExchangePlain :
      (duck : Option Duck) (config : Config) (a : Ambient) (next : Option Handler) (req : Request)
      → ExchangePlain (serve duck config a next req)
  unfolding serve
  serve-ExchangePlain duck config a next req =
      let (context, passed) = build_request_context req config in
      let run = handler_or_not_found a.answer next passed in
      let tx = start_transaction duck passed config a.start in
      either-ExchangePlain (should_ignore_request (some req) config) _ _ (tt, tt)
        (
          settle-RequestPlain duck config a passed (some context) tx run.calls run.ending
              (context-RequestPlain req config),
          settle-ReportPlain duck config a passed (some context) tx run.calls run.ending
              (started-TransactionPlain duck config a passed a.start),
        )

  -- Whatever the request, the configuration and the handler, every entry but the breadcrumbs, the chain of
  -- exceptions and the stack of every event that the middleware hands to the providers holds the mask at every
  -- sensitive key, at any depth, provided the maps of the scope are JSON-like data.
  pub serve-IsSafeCall :
      (d : Duck) (config : Config) (a : Ambient) (next : Option Handler) (req : Request)
      (draws : Draws) (k : ℕ)
      → ScopePlain d.scope
      → All (IsSafeCall d.pond) (
          deliver
            (some d)
            (serve (some d) config a next req).context
            draws
            k
            (serve (some d) config a next req).reports)
  serve-IsSafeCall d config a next req draws k h =
      let (q, i) = serve-ExchangePlain (some d) config a next req in
      deliver-IsSafeCall d _ draws k _ h q i
