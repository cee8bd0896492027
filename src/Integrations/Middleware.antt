-- ===== src/Integrations/Middleware.antt =====
-- integrations/nethttp/middleware.go: the middleware. A handler is a function of the request: the calls that it
-- makes on the writer, and how it ends. What the writer below answers is part of those calls.
pub mod Requests
pub mod Options
pub mod Capture
pub mod Reports
pub mod Outcomes
pub mod Panics
pub mod Plain
pub mod Masked
pub mod Transparent
use Prim.Native.Char.{code}
use duckbug_go.Base.{
  ℕ, String, Bool, true, false, not, ◌&&◌, Option, none, some, List, [], ◌∷◌, ◌++◌, if◌then◌else◌,
}
use duckbug_go.Base.Int.{ℤ}
use duckbug_go.Text.{Unicode}
use duckbug_go.Pond.{RequestContext}
use duckbug_go.Core.Util.{Reflection}
use duckbug_go.Core.Transaction.{Transaction}
use duckbug_go.Core.Duck.{Duck}
use duckbug_go.Integrations.Rules.{Network}
use duckbug_go.Integrations.Report.{Failure, Panic, Report, quack_recovered_panic}
use duckbug_go.Integrations.Tracker.{
  Tracker, WriteError, new_tracker, response_status, Call, writes_header, writes, calls,
}
use duckbug_go.Integrations.Middleware.Requests.{
  Request, Config, Encodings, should_ignore_request, build_request_context,
}
use duckbug_go.Integrations.Middleware.Capture.{
  Start, start_transaction, capture_transaction, capture_handled5xx,
}

pub data Ending : Type 0 where
  returns : Ending
  panics : Panic → Ending

-- What a handler does with the writer, and how it ends.
pub record Run : Type 0 where
  pub calls : List Call
  pub ending : Ending

abbrev pub Handler : Type 0
Handler = Request → Run

-- What one request draws from outside: the start of its transaction, a random number, the time at which the
-- transaction is finished, what the writer answers to the body of an error page, the text that bytes spell,
-- `json.Unmarshal` into a message, and the error of a text.
pub record Ambient : Type 0 where
  pub start : Start
  pub draw : ℕ
  pub finish_time : ℤ
  pub answer : ℕ × WriteError
  pub text : List ℕ → String
  pub unmarshal : String → Option String
  pub fail : String → Failure

-- What came of a request: all calls on the writer, the calls of the client with their request context, and how
-- the middleware ends.
pub record Exchange : Type 0 where
  pub calls : List Call
  pub reports : List Report
  pub context : Option RequestContext
  pub ending : Ending

-- The bytes of a text that is ASCII.
ascii : String → List ℕ
ascii String.[] = []
ascii (String.◌∷◌ c s) = code c ∷ ascii s

-- `http.Error`, as calls on the writer.
unfoldable pub error_page : ℕ → String → ℕ × WriteError → List Call
unfolding ascii
error_page status_code text (n, err) = writes_header status_code ∷ writes (ascii text) n err ∷ []

-- `http.NotFoundHandler()`.
unfoldable pub not_found_handler : ℕ × WriteError → Handler
unfolding error_page
not_found_handler answer r = record {
  calls = error_page 404 "404 page not found\n" answer;
  ending = returns;
}

unfoldable pub handler_or_not_found : ℕ × WriteError → Option Handler → Handler
unfolding not_found_handler
handler_or_not_found answer none = not_found_handler answer
handler_or_not_found answer (some next) = next

abbrev pub tracked : Config → List Call → Tracker
tracked config cs =
    calls cs (new_tracker config.capture_handled5xx config.handled5xx_max_body_bytes)

-- The calls that are on the writer when a panic has been recovered.
unfoldable pub with_error_page : Config → ℕ × WriteError → List Call → List Call
unfolding error_page
with_error_page config answer cs =
    let t = tracked config cs in
    if not t.wrote_header && not t.hijacked
    then cs ++ error_page 500 "Internal Server Error\n" answer
    else cs

module _ ⦃r : Reflection⦄ where
  unfoldable pub recovered_reports : Option Duck → Config → Panic → List Report
  unfolding quack_recovered_panic
  recovered_reports none config p = []
  recovered_reports (some d) config p =
      if config.capture_panics then quack_recovered_panic p "nethttp_middleware" ∷ [] else []

  -- The deferred function and the end of the handler function, by how the handler ended.
  unfoldable pub settle :
      Option Duck
      → Config
      → Ambient
      → Request
      → Option RequestContext
      → Option Transaction
      → List Call
      → Ending
      → Exchange
  unfolding response_status capture_handled5xx capture_transaction recovered_reports with_error_page
  settle duck config a req context tx cs returns = record {
    calls = cs;
    reports =
        capture_handled5xx a.text a.unmarshal a.fail duck req (tracked config cs) config
        ++ capture_transaction duck (response_status true (tracked config cs)) tx false config
            a.draw a.finish_time;
    context = context;
    ending = returns;
  }
  settle duck config a req context tx cs (panics p) =
      let written = if config.repanic then cs else with_error_page config a.answer cs in
      record {
        calls = written;
        reports =
            recovered_reports duck config p
            ++ capture_transaction duck (response_status false (tracked config written)) tx true
                config a.draw a.finish_time;
        context = context;
        ending = if config.repanic then panics p else returns;
      }

module _ ⦃u : Unicode⦄ ⦃r : Reflection⦄ ⦃n : Network⦄ ⦃e : Encodings⦄ where
  -- The function that `Middleware` returns, on a handler that may be nil.
  unfoldable pub serve : Option Duck → Config → Ambient → Option Handler → Request → Exchange
  unfolding should_ignore_request build_request_context start_transaction settle
      handler_or_not_found
  serve duck config a next req =
      let handler = handler_or_not_found a.answer next in
      if should_ignore_request (some req) config
      then record {
        calls = (handler req).calls;
        reports = [];
        context = none;
        ending = (handler req).ending;
      }
      else (let (context, req') = build_request_context req config in
          settle duck config a req' (some context) (start_transaction duck req' config a.start)
            (handler req').calls (handler req').ending)
