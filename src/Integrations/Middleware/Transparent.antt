-- ===== src/Integrations/Middleware/Transparent.antt =====
-- integrations/nethttp/middleware.go: what the middleware leaves as the handler alone would have it.
use duckbug_go.Base.{
  ℕ, Bool, true, false, Option, none, some, List, ◌≡◌, refl, ap, inl, inr, Bool-cases,
  if◌then◌else◌,
}
use duckbug_go.Text.{Unicode}
use duckbug_go.Value.{Fields}
use duckbug_go.Core.Util.{Reflection}
use duckbug_go.Core.Duck.{Duck}
use duckbug_go.Integrations.Rules.{Network}
use duckbug_go.Integrations.Tracker.{Call}
use duckbug_go.Integrations.Middleware.Requests.{
  Request, Config, Encodings, Body, restored, reads_body, should_ignore_request, body_params,
  build_request_context,
}
use duckbug_go.Integrations.Middleware.{Ending, returns, Handler, Ambient, Exchange, settle, serve}

-- Reading the body does not end with an error.
abbrev pub IsReadable : Option Body → Type 0
IsReadable none = Unit
IsReadable (some b) = b.fails ≡ false

restored-readable :
    (bytes : List ℕ) (fails : Bool)
    → fails ≡ false
    → restored (record { bytes = bytes; fails = fails }) ≡ record { bytes = bytes; fails = fails }
restored-readable bytes fails e = rw e refl

module _ ⦃u : Unicode⦄ ⦃e : Encodings⦄ where
  read_or_not :
      (b : Bool) (m : Option Fields) (x y : Request)
      → x ≡ y
      → (if◌then◌else◌ {A = Option Fields × Request} b (m, x) (none, y)).1 ≡ y
  read_or_not true m x y h = h
  read_or_not false m x y h = refl

  body_params-request :
      (o : Option Body) (req : Request) (config : Config)
      → IsReadable o
      → (body_params (record req { body = o }) config).1 ≡ record req { body = o }
  unfolding body_params
  body_params-request none req config h = refl
  body_params-request (some b) req config h =
      read_or_not (reads_body (record req { body = some b }) config) _ _ _
        (ap (λ x. record req { body = some x }) (restored-readable b.bytes b.fails h))

module _ ⦃u : Unicode⦄ ⦃r : Reflection⦄ ⦃n : Network⦄ ⦃e : Encodings⦄ where
  pub context-request :
      (req : Request) (config : Config)
      → IsReadable req.body
      → (build_request_context req config).1 ≡ req
  unfolding build_request_context
  context-request req config h = body_params-request req.body req config h

  abbrev pub answer_of : Exchange → List Call × Ending
  answer_of x = (x.calls, x.ending)

  -- A handler that returns makes, under the middleware, exactly the calls that it makes alone, on the request as
  -- it came in, its body included whether it was read for the report or not, whatever the client and the
  -- configuration, unless reading the body ends with an error; and the middleware returns.
  pub serve-returns :
      (duck : Option Duck) (config : Config) (a : Ambient) (next : Handler) (req : Request)
      → IsReadable req.body
      → (next req).ending ≡ returns
      → answer_of (serve duck config a (some next) req) ≡ ((next req).calls, returns)
  unfolding serve settle
  serve-returns duck config a next req h q =
      elim (Bool-cases (should_ignore_request (some req) config)) [
        | inl i ↦ rw (i, q) refl
        | inr i ↦ rw (i, context-request req config h, q) refl
      ]
