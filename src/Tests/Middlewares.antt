-- ===== src/Tests/Middlewares.antt =====
-- A request that pays, under a middleware that captures everything, with handlers that answer and that panic.
use duckbug_go.Base.{true, false, [], ◌∷◌, ◌≡◌, refl, none, some, All}
use duckbug_go.Base.Int.{pos}
use duckbug_go.Text.{trim_space}
use duckbug_go.Value.{str}
use duckbug_go.Core.Util.{json_object, json_field, json_string, json_end}
use duckbug_go.Core.Duck.Delivered.{IsSafeCall}
use duckbug_go.Integrations.Rules.{Network, get_header, any_listed, any_prefix}
use duckbug_go.Integrations.Report.{Panic, deliver}
use duckbug_go.Integrations.Tracker.{
  no_error, new_tracker, response_status, writes_header, writes, calls,
}
use duckbug_go.Integrations.Tracker.Status.{first_status}
use duckbug_go.Integrations.Tracker.Marks.{reported_status, takes_over, status-calls}
use duckbug_go.Integrations.Middleware.Requests.{
  Request, Config, Encodings, should_ignore_request, is_internal_request,
}
use duckbug_go.Integrations.Middleware.Options.{default_config}
use duckbug_go.Integrations.Middleware.Capture.{start_transaction}
use duckbug_go.Integrations.Middleware.Reports.{
  transactions, errors, expected_transactions, expected_errors, answered,
}
use duckbug_go.Integrations.Middleware.Outcomes.{passed, served, serve-transactions, serve-errors}
use duckbug_go.Integrations.Middleware.Masked.{serve-IsSafeCall}
use duckbug_go.Integrations.Middleware.Transparent.{answer_of, serve-returns}
use duckbug_go.Integrations.Middleware.{returns, panics, Handler, Ambient, serve}
use duckbug_go.Tests.{ascii, plain_reflection}
use duckbug_go.Tests.Clients.{client}
use duckbug_go.Tests.Responses.{failing}

instance abbrev pub local_network : Network
local_network = record { parse_ip = λ s. some s; split_host = λ s. none }

instance abbrev local_encodings : Encodings
local_encodings = record {
  url_text = λ u. u.path;
  unmarshal = λ b. some (json_object (json_field "password" (json_string "quack") json_end));
  parse_query = λ b. none;
}

abbrev config : Config
config = record default_config {
  capture_handled5xx = true;
  capture_transactions = true;
  read_body = true;
}

abbrev pay : Request
pay = record {
  method = "POST";
  url = record { scheme = ""; host = ""; path = "/pay"; query = [] };
  header = ("Content-Type", "application/json" ∷ []) ∷ [];
  cookies = [];
  host = "shop";
  remote_addr = "10.0.0.1:80";
  secure = true;
  content_length = pos 2;
  body = some (record { bytes = 123 ∷ 125 ∷ []; fails = false });
}

abbrev ambient : Ambient
ambient = record {
  start = record { trace_id = "t"; span_id = "s"; now = pos 5 };
  draw = 0;
  finish_time = pos 9;
  answer = (22, no_error);
  text = λ b. "";
  unmarshal = λ s. none;
  fail = λ s. record { message = s; chain = []; frames = [] };
}

abbrev refuse : Handler
refuse r = record {
  calls = writes_header 503 ∷ writes (110 ∷ 111 ∷ []) 2 no_error ∷ [];
  ending = returns;
}

abbrev pub boom_panic : Panic
boom_panic = record {
  recovered = str "boom";
  failure = record { message = "panic: boom"; chain = []; frames = [] };
  stack = "goroutine 1";
}

abbrev crash : Handler
crash r = record { calls = []; ending = panics boom_panic }

not_ignored : should_ignore_request (some pay) config ≡ false
unfolding should_ignore_request is_internal_request get_header any_listed any_prefix trim_space
not_ignored = refl

serve-transactions_example :
    transactions (served client config ambient refuse pay).reports
    ≡ expected_transactions config ambient
        (start_transaction
          (some client)
          (passed client config ambient refuse pay)
          config
          ambient.start)
        returns
        (answered returns (served client config ambient refuse pay).calls)
serve-transactions_example = serve-transactions client config ambient refuse pay not_ignored

serve-errors_example :
    errors (served client config ambient crash pay).reports
    ≡ expected_errors config
        (panics boom_panic)
        (answered (panics boom_panic) (served client config ambient crash pay).calls)
serve-errors_example = serve-errors client config ambient crash pay not_ignored

serve-IsSafeCall_example : All (IsSafeCall client.pond) (
    deliver
      (some client)
      (serve (some client) config ambient (some crash) pay).context
      (λ n. ("id", pos n))
      0
      (serve (some client) config ambient (some crash) pay).reports)
serve-IsSafeCall_example =
    serve-IsSafeCall client config ambient (some crash) pay (λ n. ("id", pos n)) 0
      ((tt, (tt, ((tt, tt), (tt, (tt, tt))))), tt, tt, tt)

serve-returns_example :
    answer_of (serve (some client) config ambient (some refuse) pay) ≡ ((refuse pay).calls, returns)
serve-returns_example = serve-returns (some client) config ambient refuse pay refl refl

status-calls_example :
    response_status false (calls failing (new_tracker false (pos 4)))
    ≡ reported_status false (first_status failing) (takes_over failing)
status-calls_example = status-calls false false (pos 4) failing
