-- ===== src/Integrations/Grpc.antt =====
-- integrations/grpc/interceptor.go: the server interceptors. A handler is a function of the context's request, and
-- it ends with a response and an error, or with a panic. A stream has no response.
pub mod Options
pub mod Capture
pub mod Outcomes
pub mod Masked
use duckbug_go.Base.{
  ℕ, String, Bool, true, false, Option, none, some, List, [], ◌∷◌, ◌++◌, if◌then◌else◌,
}
use duckbug_go.Base.Int.{ℤ}
use duckbug_go.Pond.{RequestContext}
use duckbug_go.Core.Util.{Reflection}
use duckbug_go.Core.Transaction.{Transaction}
use duckbug_go.Core.Duck.{Duck}
use duckbug_go.Integrations.Rules.{Network}
use duckbug_go.Integrations.Report.{Failure, Panic, Report, quack_recovered_panic}
use duckbug_go.Integrations.Grpc.Options.{Config, Code, internal, InterceptorOption, new_config}
use duckbug_go.Integrations.Grpc.Capture.{
  Codes, RpcError, Incoming, code_of, method_of, should_ignore_method, build_request_context,
  start_transaction, capture_transaction, capture_error,
}

pub data RpcEnding {ℓ} (R : Type ℓ) : Type ℓ where
  returns : Option R → Option RpcError → RpcEnding R
  panics : Panic → RpcEnding R

-- What a call draws from outside: the ids and the time of its transaction's start, a random number, the time at
-- which the transaction is finished, and the error of a text.
pub record Ambient : Type 0 where
  pub trace_id : String
  pub span_id : String
  pub now : ℤ
  pub draw : ℕ
  pub finish_time : ℤ
  pub fail : String → Failure

-- What came of a call.
pub record Exchange {ℓ} (R : Type ℓ) : Type ℓ where
  pub reports : List Report
  pub context : Option RequestContext
  pub ending : RpcEnding R

-- `status.Errorf(codes.Internal, "internal server error")`.
abbrev pub internal_error : RpcError
internal_error = record { code = internal; status_message = some "internal server error" }

unfoldable pub recovered_reports :
    ⦃r : Reflection⦄ → String → Option Duck → Config → Panic → List Report
unfolding quack_recovered_panic
recovered_reports mechanism none config p = []
recovered_reports mechanism (some d) config p =
    if config.capture_panics then quack_recovered_panic p mechanism ∷ [] else []

module _ {ℓ} {R : Type ℓ} ⦃r : Reflection⦄ where
  -- The deferred function and the end of an interceptor, by how the handler ended.
  unfoldable pub settle :
      ⦃c : Codes⦄
      → String
      → Option Duck
      → Config
      → Ambient
      → String
      → Option RequestContext
      → Option Transaction
      → RpcEnding R
      → Exchange R
  unfolding capture_error capture_transaction recovered_reports
  settle mechanism duck config a full_method context tx (returns resp e) = record {
    reports =
        capture_error a.fail duck full_method (code_of e) e config
        ++ capture_transaction duck (code_of e) tx false config a.draw a.finish_time;
    context = context;
    ending = returns resp e;
  }
  settle mechanism duck config a full_method context tx (panics p) = record {
    reports =
        recovered_reports mechanism duck config p
        ++ capture_transaction duck internal tx true config a.draw a.finish_time;
    context = context;
    ending = if config.repanic then panics p else returns none (some internal_error);
  }

  -- What the two interceptors do alike. The handler is given the request of its context, which is that of the
  -- interceptor's own context, `outer`, where the method is left alone.
  unfoldable pub intercept :
      ⦃n : Network⦄
      → ⦃c : Codes⦄ → String
      → Option Duck
      → Config
      → Ambient
      → Incoming
      → Option RequestContext
      → (Option RequestContext → RpcEnding R)
      → Exchange R
  unfolding should_ignore_method build_request_context start_transaction settle
  intercept mechanism duck config a i outer handler =
      if should_ignore_method (method_of i) config
      then record { reports = []; context = outer; ending = handler outer }
      else (let context = some (build_request_context i config) in
          settle mechanism duck config a (method_of i) context
            (start_transaction duck (method_of i) config a.trace_id a.span_id a.now)
            (handler context))

  unfoldable pub unary_server_interceptor :
      ⦃n : Network⦄
      → ⦃c : Codes⦄ → Option Duck
      → List (Option InterceptorOption)
      → Ambient
      → Incoming
      → Option RequestContext
      → (Option RequestContext → RpcEnding R)
      → Exchange R
  unfolding intercept new_config
  unary_server_interceptor duck options a i outer handler =
      intercept "grpc_unary_interceptor" duck (new_config options) a i outer handler

module _ ⦃r : Reflection⦄ where
  unfoldable pub stream_server_interceptor :
      ⦃n : Network⦄
      → ⦃c : Codes⦄ → Option Duck
      → List (Option InterceptorOption)
      → Ambient
      → Incoming
      → Option RequestContext
      → (Option RequestContext → RpcEnding (Unit {0}))
      → Exchange (Unit {0})
  unfolding intercept new_config
  stream_server_interceptor duck options a i outer handler =
      intercept "grpc_stream_interceptor" duck (new_config options) a i outer handler
