-- ===== src/Core/Duck.antt =====
-- core/duck.go: the client. It holds the providers, the scope and the
-- pond, and hands each event to every provider. What `d.now()` and `d.eventIDGenerator()` return and the
-- request context of a call enter as arguments; a call of a provider is recorded with the provider's number.
pub mod Dispatch
pub mod Plain
pub mod Safe
pub mod Entries
pub mod Carried
pub mod Spans
pub mod Sanitized
pub mod Delivered
pub mod Identified
pub mod Api
use Prim.Native.String.{◌++◌ as str_append}
use duckbug_go.Base.{
  ℕ, String, str_eq, Bool, true, false, not, ◌&&◌, Option, none, some, List, [], ◌∷◌, ◌++◌,
  if◌then◌else◌, is_nil,
}
use duckbug_go.Base.Int.{ℤ, pos}
use duckbug_go.Text.{Unicode, trim_space, itoa}
use duckbug_go.Value.{
  Value, null, str, bool, int, strings, maps, list, Items, nil, cons, Fields, end, field, Maps,
  no_maps, cons_map, of_map, non_empty, entries, is_empty, insert, lookup,
}
use duckbug_go.Value
use duckbug_go.Core.Stack.{Frame, build_error_stack, ErrorChain, build_exception_value}
use duckbug_go.Pond.{Pond, RequestContext, CollectedContext, collect, sanitize_value}
use duckbug_go.Core.Types.{EventType, errors, logs, transactions, Event}
use duckbug_go.Core.Level.{LevelInput, normalize_level}
use duckbug_go.Core.Util.{Reflection, normalize_value, clone_map}
use duckbug_go.Core.Transaction.{
  Span, Transaction, span_payload, get_trace_id, get_span_id, get_parent_span_id, get_name, get_op,
  get_status, get_context, get_measurements, get_spans, get_start, get_end, duration_ms,
}
use duckbug_go.Core.Scope.{
  Scope, ScopeSnapshot, new_scope, snapshot, append_map, set_sdk, set_runtime,
}

-- A registered provider, and whether it is a `FlushableProvider`.
pub record Handle : Type 0 where
  pub number : ℕ
  pub flushable : Bool

pub record Duck : Type 0 where
  pub providers : List Handle
  pub scope : Scope
  pub pond : Pond

pub data ProviderCall : Type 0 where
  captures : ℕ → Event → ProviderCall
  flushes : ℕ → ProviderCall

-- The default of the SDK's description.
abbrev pub with_name : Fields → Fields
with_name end = field "name" (str "duckbug-go") end
with_name (field k v fs) = elim (lookup "name" (field k v fs)) [
  | none ↦ insert "name" (str "duckbug-go") (field k v fs)
  | some w ↦ field k v fs
]

-- The default of the runtime's description, with what `runtime.Version()` returns.
abbrev pub with_language : String → Fields → Fields
with_language version end = field "language" (str "go") (field "version" (str version) end)
with_language version (field k v fs) = field k v fs

unfoldable pub new_duck :
    String → List Handle → Pond → Option Fields → Option Fields → String → Duck
new_duck version providers p sdk runtime platform =
    let trimmed = trim_space platform in
    record {
      providers = providers;
      scope = new_scope (record {
        tags = [];
        user = none;
        release = "";
        environment = "";
        dist = "";
        server_name = "";
        service = "";
        request_id = "";
        transaction = "";
        trace_id = "";
        span_id = "";
        fingerprint = "";
        breadcrumbs = no_maps;
        sdk = some (with_name (entries (clone_map sdk)));
        runtime = some (with_language version (entries (clone_map runtime)));
        extra = none;
        platform = if str_eq trimmed "" then "go" else trimmed;
      });
      pond = p;
    }

-- `RegisterProvider`, at a provider that may be nil.
unfoldable pub register_provider : Option Handle → Duck → Duck
register_provider none d = d
register_provider (some h) d = record d { providers = d.providers ++ h ∷ [] }

unfoldable pub set_duck_sdk : ⦃r : Reflection⦄ → Option Fields → Duck → Duck
set_duck_sdk value d = record d {
  scope = set_sdk (some (with_name (entries (clone_map value)))) d.scope;
}

unfoldable pub set_duck_runtime : ⦃r : Reflection⦄ → String → Option Fields → Duck → Duck
set_duck_runtime version value d = record d {
  scope = set_runtime (some (with_language version (entries (clone_map value)))) d.scope;
}

-- An entry for a text that is not empty.
abbrev pub put_text : String → String → Fields → Fields
put_text k s fs = if str_eq s "" then fs else insert k (str s) fs

-- An entry for a map that is not nil.
abbrev pub put_map : String → Option Fields → Fields → Fields
put_map k none fs = fs
put_map k (some m) fs = insert k (Value.map m) fs

abbrev pub put_tags : List String → Fields → Fields
put_tags [] fs = fs
put_tags (tag ∷ tags) fs = insert "dTags" (strings (tag ∷ tags)) fs

-- What a call passes in: the id for the event, the time in milliseconds, and the context's request.
pub record Circumstances : Type 0 where
  pub event_id : String
  pub now : ℤ
  pub request : Option RequestContext

module _ ⦃u : Unicode⦄ where
  abbrev pub put_sanitized_map : Pond → String → Option Fields → Fields → Fields
  put_sanitized_map p k none fs = fs
  put_sanitized_map p k (some m) fs = insert k (sanitize_value p false (Value.map m)) fs

  abbrev pub put_breadcrumbs : Pond → Maps → Fields → Fields
  put_breadcrumbs p no_maps fs = fs
  put_breadcrumbs p (cons_map m ms) fs =
      insert "breadcrumbs" (sanitize_value p false (maps (cons_map m ms))) fs

  -- The part of `buildBasePayload` that reads the scope, up to the fingerprint.
  unfoldable pub put_labels : Pond → ScopeSnapshot → Fields → Fields
  put_labels p s payload =
      let tagged = put_sanitized_map p "user" s.user (put_tags s.tags payload) in
      let placed = put_text "service" s.service (
        put_text "serverName" s.server_name (
          put_text "dist" s.dist
            (put_text "environment" s.environment (put_text "release" s.release tagged)))) in
      put_text "fingerprint" s.fingerprint (
        put_text "spanId" s.span_id (
          put_text "traceId" s.trace_id
            (put_text "transaction" s.transaction (put_text "requestId" s.request_id placed))))

  -- All of that part.
  unfoldable pub put_scope : Pond → ScopeSnapshot → Fields → Fields
  unfolding put_labels
  put_scope p s payload = put_text "platform" s.platform (
      put_sanitized_map p "extra" s.extra (
        put_sanitized_map p "runtime" s.runtime (
          put_sanitized_map p "sdk" s.sdk
            (put_breadcrumbs p s.breadcrumbs (put_labels p s payload)))))

  -- The part of `buildBasePayload` that reads the collected context.
  unfoldable pub put_collected : CollectedContext → Fields → Fields
  put_collected c payload =
      let requested =
        put_text "method" c.method (put_text "url" c.url (put_text "ip" c.ip payload)) in
      put_map "env" c.env (
        put_map "files" c.files (
          put_map "session" c.session (
            put_map "cookies" c.cookies (
              put_map "bodyParams" c.body_params
                (put_map "queryParams" c.query_params (put_map "headers" c.headers requested))))))

  unfoldable pub build_base_payload : Circumstances → Duck → Fields
  build_base_payload c d =
      put_collected (collect d.pond c.request)
        (put_scope d.pond (snapshot d.scope) (field "eventId" (str c.event_id) end))

  unfoldable pub build_common_payload : Circumstances → ℤ → Duck → Fields
  unfolding build_base_payload
  build_common_payload c time d = insert "time" (int time) (build_base_payload c d)

-- A time that is zero stands for now.
abbrev pub event_time : Circumstances → Option ℤ → ℤ
event_time c none = c.now
event_time c (some time) = time

-- The error that is captured: its chain, how it was met, and the stack of a recovered panic.
pub record Capture : Type 0 where
  pub message : String
  pub chain : ErrorChain
  pub handled : Bool
  pub mechanism : String
  pub stack_override : String
  pub frames : List Frame

module _ ⦃u : Unicode⦄ ⦃r : Reflection⦄ where
  -- The details, unless they are nil.
  abbrev pub put_details : Pond → Option Value → Fields → Fields
  put_details p none fs = fs
  put_details p (some details) fs =
      insert "context" (sanitize_value p false (normalize_value details)) fs

  -- The payload of `captureErrorAt`.
  unfoldable pub error_payload : Circumstances → Option ℤ → Capture → Option Value → Duck → Fields
  error_payload c at e details d =
      let stack = build_error_stack e.frames in
      let text = if str_eq e.stack_override "" then stack.printed else e.stack_override in
      let described = insert "stacktrace" (maps stack.frames) (
        insert "exception" (sanitize_value d.pond false (build_exception_value e.chain))
          (insert "message" (str e.message) (build_common_payload c (event_time c at) d))) in
      put_details d.pond details (
        put_text "mechanism" (trim_space e.mechanism) (
          insert "handled" (bool e.handled) (
            insert "line" (int (pos stack.top_line)) (
              insert "file" (str stack.top_file)
                (insert "stacktraceAsString" (str text) described)))))

  -- The payload of `LogContextAt`.
  unfoldable pub log_payload :
      Circumstances → Option ℤ → LevelInput → String → Option Value → Duck → Fields
  log_payload c at severity message details d = put_details d.pond details (
      insert "message" (str message) (
        insert "level" (str (normalize_level severity))
          (build_common_payload c (event_time c at) d)))
