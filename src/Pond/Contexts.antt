-- ===== src/Pond/Contexts.antt =====
-- pond/pond.go: the request that a context carries. A context is what it was made of by `context.WithValue`.
use duckbug_go.Base.{String, Option, none, some, List}
use duckbug_go.Text.{Unicode}
use duckbug_go.Pond.{Pond, RequestContext, CollectedContext, collect_method}

-- Values under other keys are not looked at here.
pub data Context : Type 0 where
  background : Context
  with_request : Context → RequestContext → Context
  with_other : Context → Context

abbrev or_background : Option Context → Context
or_background none = background
or_background (some c) = c

-- `WithRequestContext`.
unfoldable pub with_request_context : Option Context → RequestContext → Context
with_request_context c req = with_request (or_background c) req

-- `ctx.Value` at the key of the request: the last one that was put.
unfoldable pub request_value : Context → Option RequestContext
request_value background = none
request_value (with_request c req) = some req
request_value (with_other c) = request_value c

-- `RequestContextFromContext`, at a context that may be nil.
unfoldable pub request_context_from_context : Option Context → Option RequestContext
unfolding request_value
request_context_from_context none = none
request_context_from_context (some c) = request_value c

-- `Collect`.
unfoldable pub collect_context :
    ⦃u : Unicode⦄ → List String → Option Pond → Option Context → CollectedContext
unfolding request_context_from_context
collect_context environ p c = collect_method environ p (request_context_from_context c)
