-- ===== src/Provider/Transport.antt =====
-- providers/duckbug/http_transport.go: requests with retries. The network is the client's: what the attempt
-- number `n` of a request brings back, and how a wait ends, are parameters. Durations are in nanoseconds
-- and have 64 bits.
pub mod Retry
pub mod Backoff
use Prim.Native.Char.{code}
use Prim.Native.String.{◌++◌ as str_append}
use duckbug_go.Base.{
  ℕ, zero, suc, ◌+◌, ◌-◌, ◌*◌, ◌^◌, ◌%◌, ◌==◌, leb, ltb, String, str_eq, Bool, true, false, not,
  ◌&&◌, ◌||◌, Option, none, some, List, [], ◌∷◌, if◌then◌else◌, take, is_nil,
}
use duckbug_go.Base.Int.{ℤ, pos, negsuc, wrap_int64}
use duckbug_go.Text.{trim_space, trim_left, trim_right}
use duckbug_go.Value.{Fields}
use duckbug_go.Core.Types.{EventType, type_name, TransportResult, BatchItemResult}
use duckbug_go.Provider.Config.{Config, positive_or, second, millisecond}

-- An `http.Client`: one that the user made, or the default one, with its timeout and that of its dialer and its
-- handshake.
pub data HttpClient : Type 0 where
  given : ℕ → HttpClient
  built : ℕ → ℕ → HttpClient

pub record TransportConfig : Type 0 where
  pub client : Option HttpClient
  pub timeout : ℤ
  pub connection_timeout : ℤ
  pub max_retries : ℤ
  pub retry_delay : ℤ
  pub max_response_bytes : ℤ

pub record HttpTransport : Type 0 where
  pub client : HttpClient
  pub max_retries : ℕ
  pub retry_delay : ℕ
  pub max_response_bytes : ℕ

-- `max(0, value)`.
abbrev to_ℕ : ℤ → ℕ
to_ℕ (pos n) = n
to_ℕ (negsuc n) = 0

abbrev client_or : HttpClient → Option HttpClient → HttpClient
client_or c none = c
client_or c (some client) = client

-- `NewHTTPTransport`.
unfoldable pub new_http_transport : TransportConfig → HttpTransport
new_http_transport c = record {
  client =
      client_or
        (built (positive_or (5 * second) c.timeout) (positive_or (3 * second) c.connection_timeout))
        c.client;
  max_retries = to_ℕ c.max_retries;
  retry_delay = positive_or (100 * millisecond) c.retry_delay;
  max_response_bytes = positive_or (128 * 2 ^ 10) c.max_response_bytes;
}

-- The transport of `NewWithConfig`, unless the configuration brings one.
unfoldable pub own_transport : Config → Option HttpTransport
unfolding new_http_transport
own_transport c =
    if c.has_transport
    then none
    else some (
        new_http_transport (record {
          client = none;
          timeout = c.timeout;
          connection_timeout = c.connection_timeout;
          max_retries = c.max_retries;
          retry_delay = c.retry_delay;
          max_response_bytes = pos 0;
        }))

-- What an attempt brings back: an error of `http.NewRequestWithContext` or `client.Do`, or a status code
-- and the bytes of a body.
pub data Exchange : Type 0 where
  failed : String → Exchange
  response : ℕ → List ℕ → Exchange

-- What is not the SDK's: the JSON encoder and decoder, the network, and the context.
pub record Network : Type 0 where
  pub marshal_error : Option String
  pub exchange : ℕ → Exchange
  pub text : List ℕ → String
  pub decode_items : List ℕ → Option (List BatchItemResult)
  pub waits : ℕ → Bool
  pub context_error : String

abbrev items_of : Option (List BatchItemResult) → List BatchItemResult
items_of none = []
items_of (some items) = items

abbrev error_result : String → ℕ → TransportResult
error_result message attempts = record {
  status_code = 0;
  response_body = "";
  error_message = message;
  attempts = attempts;
  duplicate = false;
  items = [];
}

abbrev pub result_of : HttpTransport → Network → ℕ → Exchange → TransportResult
result_of t net attempts (failed message) = error_result message attempts
result_of t net attempts (response status bytes) =
    let body = take t.max_response_bytes bytes in
    record {
      status_code = status;
      response_body = trim_space (net.text body);
      error_message = "";
      attempts = attempts;
      duplicate = status == 409;
      items = if leb 200 status && ltb status 300 then items_of (net.decode_items body) else [];
    }

-- `execute`.
unfoldable pub execute : HttpTransport → Network → ℕ → TransportResult
execute t net attempt = result_of t net attempt (net.exchange attempt)

-- `shouldRetry`: 501 is StatusNotImplemented, 408 StatusRequestTimeout, 429 StatusTooManyRequests and 500
-- StatusInternalServerError.
unfoldable pub should_retry : TransportResult → Bool
should_retry r =
    if not (str_eq r.error_message "")
    then true
    else if r.status_code == 501
    then false
    else if r.status_code == 408 || r.status_code == 429
    then true
    else leb 500 r.status_code

-- `backoffDelay` at a base that is not negative.
unfoldable pub backoff_delay : ℕ → ℕ → ℤ
backoff_delay base attempt =
    if leb attempt 1 then pos base else wrap_int64 (base * (2 ^ (attempt - 1) % 2 ^ 64))

abbrev pub cancelled : Network → TransportResult → TransportResult
cancelled net r =
    if str_eq r.error_message "" then record r { error_message = net.context_error } else r

-- The loop of `request`: the rounds left, the attempt's number and the last result. It also returns the
-- delays that it waited for.
unfoldable pub attempts_from :
    HttpTransport → Network → ℕ → ℕ → TransportResult → List ℤ → TransportResult × List ℤ
attempts_from t net zero attempt result delays = (result, delays)
attempts_from t net (suc left) attempt result delays =
    let r = execute t net attempt in
    let delay = backoff_delay t.retry_delay attempt in
    let rest = attempts_from t net left (attempt + 1) r (delay ∷ delays) in
    if not (should_retry r) || leb (t.max_retries + 1) attempt
    then (r, delays)
    else if not (net.waits attempt)
    then (cancelled net r, delay ∷ delays)
    else rest

-- The rounds of `for attempt := 1; attempt <= maxAttempts; attempt++`, unless the payload has no JSON form.
abbrev pub requested : HttpTransport → Network → Option String → TransportResult × List ℤ
requested t net (some message) = (error_result message 1, [])
requested t net none = attempts_from t net (suc t.max_retries) 1 (error_result "" 0) []

-- `request`.
unfoldable pub request : HttpTransport → Network → TransportResult × List ℤ
request t net = requested t net net.marshal_error

abbrev is_slash : Prim.Native.Char.Char → Bool
is_slash c = code c == b'/'

add_segments : String → List String → String
add_segments url [] = url
add_segments url (segment ∷ segments) =
    add_segments (str_append url (str_append "/" (trim_left is_slash (trim_space segment))))
      segments

-- `joinURL`.
unfoldable pub join_url : String → List String → String
unfolding add_segments
join_url base segments = add_segments (trim_right is_slash (trim_space base)) segments

-- The addresses of `Send` and `SendBatch`.
unfoldable pub send_url : String → EventType → String
send_url dsn t = join_url dsn (type_name t ∷ [])

unfoldable pub send_batch_url : String → EventType → String
send_batch_url dsn t = join_url dsn (type_name t ∷ "batch" ∷ [])
