-- ===== src/Tests/Requests.antt =====
-- Requests with retries, on a network that recovers at the third attempt.
use duckbug_go.Base.{◌≤◌, leb, true, false, none, [], ◌≡◌, ◌⊎◌, refl, arith, if◌then◌else◌}
use duckbug_go.Base.Int.{pos}
use duckbug_go.Core.Types.{TransportResult}
use duckbug_go.Provider.Transport.{
  HttpTransport, Network, given, failed, response, request, should_retry, backoff_delay,
}
use duckbug_go.Provider.Transport.Retry.{Runs, request-Runs, request_exhausts}
use duckbug_go.Provider.Transport.Backoff.{backoff_delay-vanishes}

abbrev patient : HttpTransport
patient = record {
  client = given 0;
  max_retries = 3;
  retry_delay = 100000000;
  max_response_bytes = 1024;
}

abbrev recovering : Network
recovering = record {
  marshal_error = none;
  exchange = λ n. if leb n 1 then failed "refused" else response (if leb n 2 then 503 else 202) [];
  text = λ bytes. "";
  decode_items = λ bytes. none;
  waits = λ n. true;
  context_error = "";
}

request-Runs_example :
    Runs patient recovering 1 (request patient recovering).0
    × (1 ≤ (request patient recovering).0.attempts)
    × ((request patient recovering).0.attempts ≤ 4)
request-Runs_example = request-Runs patient recovering refl

request_exhausts_example :
    (should_retry (request patient recovering).0 ≡ false)
    ⊎ ((request patient recovering).0.attempts ≡ 4)
request_exhausts_example = request_exhausts patient recovering refl (λ j. refl)

abbrev unavailable : TransportResult
unavailable = record {
  status_code = 503;
  response_body = "";
  error_message = "";
  attempts = 2;
  duplicate = false;
  items = [];
}

backoff_delay-vanishes_example : backoff_delay 100000000 65 ≡ pos 0
backoff_delay-vanishes_example = backoff_delay-vanishes 100000000 65 (omega arith)
