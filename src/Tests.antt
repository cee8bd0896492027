-- ===== src/Tests.antt =====
-- Examples: each theorem at concrete inputs. Here are the settings, transports and payloads that they use.
mod Ponds
mod Payloads
mod Providers
mod Requests
mod Clients
mod Ids
mod Lines
mod Middlewares
mod Calls
mod Logs
mod Responses
mod Pipelines
mod Races
use duckbug_go.Base.{
  ℕ, String, Bool, true, false, Option, none, some, List, [], ◌∷◌, if◌then◌else◌, leb,
}
use duckbug_go.Text.{Unicode}
use duckbug_go.Value.{Value, null, str, int, list, nil, cons, Fields, end, field}
use duckbug_go.Base.Int.{pos}
use duckbug_go.Core.Scope.{Scope}
use duckbug_go.Core.Transaction.{Span, Transaction}
use duckbug_go.Value.{opaque, maps, cons_map, no_maps}
use duckbug_go.Core.Util.{Reflection, json_string}
use duckbug_go.Core.Types.{EventType, errors, logs, transactions, Event, TransportResult}
use duckbug_go.Provider.Payload.{default_privacy_options}
use duckbug_go.Provider.Config.{Settings}
use duckbug_go.Provider.State.{Transport}

-- Letters outside of ASCII have no other case here.
instance abbrev pub ascii : Unicode
ascii = record { lower_rune = λ c. c; upper_rune = λ c. c }

instance abbrev pub plain_reflection : Reflection
plain_reflection = record { marshal = λ n. some (json_string "value"); sprint = λ n. "value" }

abbrev pub login : Fields
login = field "user" (str "duck") (
    field " Password " (str "quack") (
      field "nested" (Value.map (field "token" (int (pos 7)) end))
        (field "gone" null (field "eventId" (str "id-1") end))))

abbrev pub headers : Fields
headers = field "Cookie" (str "crumbs") (field "Accept" (list (cons (str "text") nil)) end)

-- Every other request is refused.
abbrev pub flaky : Transport
flaky [] t batch items = record {
  status_code = 503;
  response_body = "";
  error_message = "";
  attempts = 1;
  duplicate = false;
  items = [];
}
flaky (d ∷ sent) t batch items = record {
  status_code = 202;
  response_body = "";
  error_message = "";
  attempts = 1;
  duplicate = false;
  items = [];
}

abbrev pub pairs : Settings
pairs = record {
  dsn = "https://example.org/ingest/key";
  batch_size = 2;
  async = true;
  queue_size = 3;
  flush_interval = 2000000000;
  privacy = default_privacy_options;
  before_send = none;
  has_failure_handler = false;
}

abbrev pub error_event : Event
error_event = record { type = errors; payload = some login }

abbrev pub log_event : Event
log_event = record { type = logs; payload = some (field "message" (str "hi") end) }

abbrev pub transaction_event : Event
transaction_event = record { type = transactions; payload = some (field "op" (str "http") end) }

abbrev pub any_value : Value
any_value = list (cons (opaque 3) (cons (maps (cons_map login no_maps)) nil))

abbrev pub fresh : Scope
fresh = record {
  tags = [];
  user = none;
  release = "";
  environment = "";
  dist = "";
  server_name = "";
  service = "";
  request_id = "";
  transaction = "";
  trace_id = "";
  span_id = "";
  fingerprint = "";
  breadcrumbs = no_maps;
  sdk = none;
  runtime = none;
  extra = none;
  platform = "go";
}

abbrev pub query : Span
query = record {
  trace_id = "t";
  span_id = "s";
  parent_span_id = "p";
  op = "db";
  description = "";
  start_timestamp_ms = pos 100;
  end_timestamp_ms = some (pos 130);
  status = "ok";
  span_data = none;
}

abbrev pub checkout : Transaction
checkout = record {
  name = "checkout";
  op = "http";
  trace_id = "t";
  span_id = "p";
  parent_span_id = "";
  start_timestamp_ms = pos 100;
  end_timestamp_ms = some (pos 130);
  status = "";
  context = Value.null;
  measurements = none;
  spans = query ∷ [];
}
