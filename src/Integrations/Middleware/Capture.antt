-- ===== src/Integrations/Middleware/Capture.antt =====
-- integrations/nethttp/middleware.go: the transaction of a request and the report of a response that is a
-- server error.
use Prim.Native.String.{◌++◌ as str_append}
use duckbug_go.Base.{
  ℕ, String, str_eq, Bool, true, not, ◌||◌, leb, ltb, ◌==◌, Option, none, some, List, [], ◌∷◌,
  if◌then◌else◌,
}
use duckbug_go.Base.Int.{ℤ, pos}
use duckbug_go.Text.{trim_space, itoa, is_blank}
use duckbug_go.Value.{Value, str, int, Fields, end, field}
use duckbug_go.Core.Util.{Reflection}
use duckbug_go.Core.Duck.{Duck, put_text}
use duckbug_go.Core.Transaction.{Transaction, set_context, add_measurement, finish}
use duckbug_go.Integrations.Rules.{get_header, sampled}
use duckbug_go.Integrations.Report.{
  Failure, Report, transaction_report, quack_context_details, start_transaction_named,
}
use duckbug_go.Integrations.Tracker.{Tracker, response_snippet}
use duckbug_go.Integrations.Middleware.Requests.{Request, Config, is_websocket_request}

abbrev text_or : String → String → String
text_or fallback s = if is_blank s then fallback else trim_space s

-- The names of a request, with their defaults.
abbrev pub request_method : Request → String
request_method r = text_or "GET" r.method

abbrev pub request_path : Request → String
request_path r = text_or "/" r.url.path

abbrev pub user_agent : Request → String
unfolding get_header
user_agent r = trim_space (get_header "User-Agent" r.header)

-- What the start of a transaction draws: its ids, and the time.
pub record Start : Type 0 where
  pub trace_id : String
  pub span_id : String
  pub now : ℤ

abbrev pub join_words : String → String → String
join_words a b = str_append a (str_append " " b)

-- `shouldCaptureTransaction`, at what `rand.Float64()` returns.
unfoldable pub should_capture_transaction : (draw rate status_code : ℕ) → Bool
unfolding sampled
should_capture_transaction draw rate status_code =
    if leb 500 status_code then true else sampled draw rate

unfoldable pub transaction_status_from_http_status : ℕ → String
transaction_status_from_http_status status_code =
    if status_code == 0
    then "unknown_error"
    else if leb 500 status_code
    then "internal_error"
    else if leb 400 status_code
    then "invalid_argument"
    else "ok"

module _ ⦃r : Reflection⦄ where
  abbrev pub with_request_context : Request → Transaction → Transaction
  with_request_context req tx =
      set_context
        (Value.map (
          field "method" (str (request_method req))
            (field "path" (str (request_path req)) (field "userAgent" (str (user_agent req)) end))))
        tx

  abbrev pub described : Request → Option Transaction → Option Transaction
  described req none = none
  described req (some tx) = some (with_request_context req tx)

  unfoldable pub start_transaction : Option Duck → Request → Config → Start → Option Transaction
  unfolding start_transaction_named set_context is_websocket_request
  start_transaction duck req config s =
      if not config.capture_transactions || is_websocket_request (some req)
      then none
      else described req (
          start_transaction_named duck (join_words (request_method req) (request_path req))
            "http.server" s.trace_id s.span_id s.now)

  -- The measurement of the status, unless it is 0.
  abbrev pub measured : ℕ → Transaction → Transaction
  measured status_code tx =
      if status_code == 0
      then tx
      else add_measurement "http.response.status_code" (int (pos status_code)) "code" tx

  -- The transaction as it is captured, finished at the given time.
  unfoldable pub finished : ℕ → ℤ → Transaction → Transaction
  unfolding add_measurement finish transaction_status_from_http_status
  finished status_code now tx =
      finish (transaction_status_from_http_status status_code) [] now (measured status_code tx)

  unfoldable pub capture_transaction :
      Option Duck → ℕ → Option Transaction → (force : Bool) → Config → (draw : ℕ) → ℤ → List Report
  unfolding finished should_capture_transaction
  capture_transaction none status_code tx force config draw now = []
  capture_transaction (some d) status_code none force config draw now = []
  capture_transaction (some d) status_code (some tx) force config draw now =
      if force || should_capture_transaction draw config.transaction_sample_rate status_code
      then transaction_report (finished status_code now tx) ∷ []
      else []

-- The message of a body that is an object with one, by what `json.Unmarshal` into a struct with a text named
-- message yields.
unfoldable pub extract_response_message : (String → Option String) → String → String
extract_response_message unmarshal body =
    let text = trim_space body in
    if str_eq text ""
    then ""
    else elim (unmarshal text) [ none ↦ text | some message ↦ text_or text message ]

-- The text of the error of `httpStatusError`.
unfoldable pub http_status_error : ℕ → String → String → String
http_status_error status_code method path = str_append "http " (
    str_append (itoa status_code)
      (str_append ": " (join_words (text_or "GET" method) (text_or "/" path))))

-- The details of a handled server error; the last two arguments are the response's message and body.
unfoldable pub handled5xx_details : Request → Tracker → String → String → Fields
handled5xx_details req t message body = put_text "responseBody" body (
    put_text "responseMessage" message (
      field "method" (str (request_method req)) (
        field "path" (str (request_path req)) (
          field "status" (int (pos t.status_code)) (
            field "userAgent" (str (user_agent req))
              (field "responseAcceptedBytes" (int (pos t.accepted_bytes)) end))))))

-- `captureHandled5xx`; `text` decodes bytes, and `fail` makes the error of a text, at the frames of the call.
unfoldable pub capture_handled5xx :
    (List ℕ → String)
    → (String → Option String)
    → (String → Failure)
    → Option Duck
    → Request
    → Tracker
    → Config
    → List Report
unfolding handled5xx_details extract_response_message http_status_error response_snippet
    quack_context_details
capture_handled5xx text unmarshal fail none req t config = []
capture_handled5xx text unmarshal fail (some d) req t config =
    if not config.capture_handled5xx || ltb t.status_code 500
    then []
    else (let body = response_snippet text t in
        quack_context_details
          (fail (http_status_error t.status_code (request_method req) (request_path req)))
          (some
            (Value.map (handled5xx_details req t (extract_response_message unmarshal body) body)))
          true "nethttp_response_5xx"
        ∷ [])
