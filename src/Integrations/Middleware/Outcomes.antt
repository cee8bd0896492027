-- ===== src/Integrations/Middleware/Outcomes.antt =====
-- integrations/nethttp/middleware.go: what is reported of a request that is not ignored, by how its handler ended
-- and by the status that its calls on the writer settle.
use duckbug_go.Base.{
  ℕ, Bool, true, false, not, ◌&&◌, ◌||◌, leb, ltb, Option, none, some, List, [], ◌∷◌, ◌≡◌, refl, ap,
  ◌∙◌, if◌then◌else◌, arith,
}
use duckbug_go.Text.{Unicode}
use duckbug_go.Pond.{RequestContext}
use duckbug_go.Core.Util.{Reflection}
use duckbug_go.Core.Transaction.{Transaction}
use duckbug_go.Core.Duck.{Duck}
use duckbug_go.Integrations.Rules.{Network}
use duckbug_go.Integrations.Tracker.{new_tracker, Call}
use duckbug_go.Integrations.Tracker.Status.{first_status}
use duckbug_go.Integrations.Tracker.Marks.{
  takes_over, reported_status, status_or, run_mark, calls-mark, status-calls,
}
use duckbug_go.Integrations.Middleware.Requests.{
  Request, Config, Encodings, should_ignore_request, build_request_context,
}
use duckbug_go.Integrations.Middleware.Capture.{start_transaction}
use duckbug_go.Integrations.Middleware.Reports.{
  transactions, errors, transactions-after, errors-before, answered, expected_transactions,
  expected_errors, captured, handled, captured-transactions, captured-errors, handled-transactions,
  handled-errors, recovered-transactions, recovered-errors,
}
use duckbug_go.Integrations.Middleware.{
  Ending, returns, panics, Handler, Ambient, Exchange, tracked, recovered_reports, settle, serve,
}

module _ ⦃r : Reflection⦄ (d : Duck) (config : Config) (a : Ambient) where
  server_error :
      (b taken : Bool) (o : Option ℕ)
      → (if not b || ltb (status_or 0 o) 500 then [] else true ∷ [])
        ≡ (if b && leb 500 (reported_status true o taken) then true ∷ [] else [])
  server_error true true none = refl
  server_error true false none = refl
  server_error true taken (some code) = ground arith
  server_error false taken o = refl

  tracked-status :
      (cs : List Call) → (tracked config cs).status_code ≡ status_or 0 (first_status cs)
  unfolding new_tracker
  tracked-status cs =
      ap (λ m. m.0)
        (calls-mark cs (new_tracker config.capture_handled5xx config.handled5xx_max_body_bytes))
      ∙ open_status (first_status cs) (takes_over cs)
    where
      open_status :
          (o : Option ℕ) (taken : Bool) → (run_mark (0, false, false) o taken).0 ≡ status_or 0 o
      open_status o taken = refl

  settle-transactions :
      (req : Request) (context : Option RequestContext) (tx : Option Transaction) (cs : List Call)
      (e : Ending)
      → transactions (settle (some d) config a req context tx cs e).reports
        ≡ expected_transactions config a tx e
            (answered e (settle (some d) config a req context tx cs e).calls)
  unfolding settle captured handled
  settle-transactions req context tx cs returns =
      transactions-after (handled d config a req cs) _ (handled-transactions d config a req cs)
      ∙ captured-transactions d config a _ tx returns
      ∙ ap (expected_transactions config a tx returns)
          (status-calls config.capture_handled5xx true config.handled5xx_max_body_bytes cs)
  settle-transactions req context tx cs (panics p) =
      transactions-after (recovered_reports (some d) config p) _
        (recovered-transactions d config a p)
      ∙ captured-transactions d config a _ tx (panics p)
      ∙ ap (expected_transactions config a tx (panics p))
          (status-calls config.capture_handled5xx false config.handled5xx_max_body_bytes _)

  settle-errors :
      (req : Request) (context : Option RequestContext) (tx : Option Transaction) (cs : List Call)
      (e : Ending)
      → errors (settle (some d) config a req context tx cs e).reports
        ≡ expected_errors config e (answered e (settle (some d) config a req context tx cs e).calls)
  unfolding settle captured handled expected_errors
  settle-errors req context tx cs returns =
      errors-before (handled d config a req cs) _ (captured-errors d config a _ tx false)
      ∙ handled-errors d config a req cs
      ∙ ap (λ s. if not config.capture_handled5xx || ltb s 500 then [] else true ∷ [])
          (tracked-status cs)
      ∙ server_error config.capture_handled5xx (takes_over cs) (first_status cs)
  settle-errors req context tx cs (panics p) =
      errors-before (recovered_reports (some d) config p) _ (captured-errors d config a _ tx true)
      ∙ recovered-errors d config a p

module _ ⦃u : Unicode⦄ ⦃r : Reflection⦄ ⦃n : Network⦄ ⦃e : Encodings⦄ (d : Duck) (config : Config)
    (a : Ambient) (next : Handler) (req : Request) where
  -- The request as the handler gets it.
  abbrev pub passed : Request
  passed = (build_request_context req config).1

  abbrev pub served : Exchange
  served = serve (some d) config a (some next) req

  pub serve-settle :
      should_ignore_request (some req) config ≡ false
      → served
        ≡ settle
            (some d)
            config
            a
            passed
            (some (build_request_context req config).0)
            (start_transaction (some d) passed config a.start)
            (next passed).calls
            (next passed).ending
  unfolding serve
  serve-settle h = rw h refl

  -- A request that is not ignored leaves the transaction that was started for it exactly if its handler panicked,
  -- the response is a server error, or the random number is below the sample rate, with the status that the calls
  -- on the writer settle, those of the error page after a panic included; no other transaction is captured.
  pub serve-transactions :
      should_ignore_request (some req) config ≡ false
      → transactions served.reports
        ≡ expected_transactions config a
            (start_transaction (some d) passed config a.start)
            (next passed).ending
            (answered (next passed).ending served.calls)
  serve-transactions h =
      rw (serve-settle h)
        (settle-transactions d config a passed _ _ (next passed).calls (next passed).ending)

  -- A request that is not ignored is reported as one error at most: a panic, as not handled, if panics are
  -- captured, or a response that is a server error, as handled, if those are captured.
  pub serve-errors :
      should_ignore_request (some req) config ≡ false
      → errors served.reports
        ≡ expected_errors config (next passed).ending (answered (next passed).ending served.calls)
  serve-errors h =
      rw (serve-settle h)
        (settle-errors d config a passed _ _ (next passed).calls (next passed).ending)
