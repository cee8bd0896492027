-- ===== src/Tests/Calls.antt =====
-- Calls of a gRPC method under an interceptor, with handlers that fail and that panic.
use duckbug_go.Base.{ℕ, ◌↔◌, true, false, [], ◌∷◌, ◌≡◌, refl, none, some, Option, All}
use duckbug_go.Base.Int.{pos}
use duckbug_go.Text.{trim_space, has_prefix}
use duckbug_go.Pond.{RequestContext}
use duckbug_go.Core.Duck.Delivered.{IsSafeCall}
use duckbug_go.Integrations.Rules.{any_listed, any_prefix}
use duckbug_go.Integrations.Report.{deliver}
use duckbug_go.Integrations.Grpc.Options.{
  Config, unavailable, default_should_capture, default_config,
}
use duckbug_go.Integrations.Grpc.Capture.{
  Codes, Incoming, should_ignore_method, build_request_context, start_transaction,
  transaction_status_from_code,
}
use duckbug_go.Integrations.Grpc.Outcomes.{
  left, expected, intercept-left, default_should_capture-status,
}
use duckbug_go.Integrations.Grpc.Masked.{intercept-IsSafeCall}
use duckbug_go.Integrations.Grpc.{RpcEnding, returns, panics, Ambient, Exchange, intercept}
use duckbug_go.Tests.{ascii, plain_reflection}
use duckbug_go.Tests.Clients.{client}
use duckbug_go.Tests.Middlewares.{local_network, boom_panic}

instance abbrev codes : Codes
codes = record { number_of = λ c. 14; name_of = λ c. "Unavailable" }

abbrev config : Config
config = record default_config {
  capture_transactions = true;
  capture_metadata = true;
  ignored_method_prefixes = "/health" ∷ [];
  should_capture = some default_should_capture;
}

abbrev incoming : Incoming
incoming = record {
  peer_addr = some "10.0.0.1:80";
  metadata = some (("token", "quack" ∷ []) ∷ []);
  full_method = some "/shop/Pay";
}

abbrev ambient : Ambient
ambient = record {
  trace_id = "t";
  span_id = "s";
  now = pos 5;
  draw = 0;
  finish_time = pos 9;
  fail = λ s. record { message = s; chain = []; frames = [] };
}

abbrev fails : Option RequestContext → RpcEnding ℕ
fails q = returns none (some (record { code = unavailable; status_message = some "later" }))

abbrev crashes : Option RequestContext → RpcEnding ℕ
crashes q = panics boom_panic

called : should_ignore_method "/shop/Pay" config ≡ false
unfolding should_ignore_method any_listed any_prefix trim_space has_prefix
called = refl

intercept-left_example :
    left (intercept "grpc_unary_interceptor" (some client) config ambient incoming none fails)
    ≡ expected config ambient
        (start_transaction (some client) "/shop/Pay" config "t" "s" (pos 5))
        (fails (some (build_request_context incoming config)))
intercept-left_example =
    intercept-left "grpc_unary_interceptor" client config ambient incoming none fails called

default_should_capture-status_example :
    (default_should_capture unavailable ≡ true)
    ↔ (transaction_status_from_code unavailable ≡ "internal_error")
default_should_capture-status_example = default_should_capture-status unavailable

abbrev streamed : Exchange ℕ
streamed = intercept "grpc_stream_interceptor" (some client) config ambient incoming none crashes

intercept-IsSafeCall_example :
    All
      (IsSafeCall client.pond)
      (deliver (some client) streamed.context (λ n. ("id", pos n)) 0 streamed.reports)
intercept-IsSafeCall_example =
    intercept-IsSafeCall "grpc_stream_interceptor" client config ambient incoming none crashes
      (λ n. ("id", pos n)) 0 ((tt, (tt, ((tt, tt), (tt, (tt, tt))))), tt, tt, tt) tt
