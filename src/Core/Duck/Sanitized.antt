-- ===== src/Core/Duck/Sanitized.antt =====
-- core/duck.go: the payloads of errors and logs, and what is masked in them.
use duckbug_go.Base.{String, true, false, Option, none, some, refl, inl}
use duckbug_go.Base.Int.{ℤ}
use duckbug_go.Text.{Unicode, contains}
use duckbug_go.Value.{Value, Fields}
use duckbug_go.Pond.{Pond, RequestContext, CollectedContext, collect}
use duckbug_go.Core.Duck.Plain.{clone_map-OptPlain, env-OptPlain}
use duckbug_go.Pond.Masked.{sanitize_value-IsMasked}
use duckbug_go.Core.Util.{Reflection, clone_map}
use duckbug_go.Core.Util.Normal.{normalize_value-IsPlain}
use duckbug_go.Core.Level.{LevelInput}
use duckbug_go.Core.Scope.{Scope, snapshot}
use duckbug_go.Core.Duck.{
  Duck, Circumstances, Capture, put_scope, put_labels, put_collected, put_details,
  build_base_payload, build_common_payload, error_payload, log_payload,
}
use duckbug_go.Core.Duck.Safe.{
  RequestPlain, ScopePlain, AllSafe, OptMasked, put-AllSafe, except-AllSafe, put_text-AllSafe,
  put_map-AllSafe, put_tags-AllSafe, put_sanitized_map-AllSafe, put_breadcrumbs-AllSafe,
  sanitize_map-OptMasked,
}

module _ ⦃u : Unicode⦄ (p : Pond) where
  put_scope-AllSafe :
      (s : Scope) (fs : Fields)
      → ScopePlain s
      → AllSafe p fs
      → AllSafe p (put_scope p (snapshot s) fs)
  unfolding put_scope put_labels snapshot
  put_scope-AllSafe s fs plain h = put_text-AllSafe p "platform" s.platform _ (
      put_sanitized_map-AllSafe p "extra" (clone_map s.extra) _ (clone_map-OptPlain _ plain.1) (
        put_sanitized_map-AllSafe p "runtime" (clone_map s.runtime) _ (clone_map-OptPlain _ plain.3)
          (put_sanitized_map-AllSafe p "sdk" (clone_map s.sdk) _ (clone_map-OptPlain _ plain.2) (
            put_breadcrumbs-AllSafe p (snapshot s).breadcrumbs _ (
              put_text-AllSafe p "fingerprint" s.fingerprint _ (
                put_text-AllSafe p "spanId" s.span_id _ (
                  put_text-AllSafe p "traceId" s.trace_id _ (
                    put_text-AllSafe p "transaction" s.transaction _ (
                      put_text-AllSafe p "requestId" s.request_id _ (
                        put_text-AllSafe p "service" s.service _ (
                          put_text-AllSafe p "serverName" s.server_name _ (
                            put_text-AllSafe p "dist" s.dist _ (
                              put_text-AllSafe p "environment" s.environment _ (
                                put_text-AllSafe p "release" s.release _ (
                                  put_sanitized_map-AllSafe p "user" (clone_map s.user) _
                                    (clone_map-OptPlain _ plain.0)
                                    (put_tags-AllSafe p (snapshot s).tags fs h))))))))))))))))

  abbrev CollectedMasked : CollectedContext → Type 0
  CollectedMasked c =
      OptMasked p c.headers
      × OptMasked p c.query_params
      × OptMasked p c.body_params
      × OptMasked p c.cookies
      × OptMasked p c.session
      × OptMasked p c.files
      × OptMasked p c.env

  collect-CollectedMasked :
      (q : Option RequestContext) → RequestPlain q → CollectedMasked (collect p q)
  unfolding collect
  collect-CollectedMasked none h =
      (tt, tt, tt, tt, tt, tt, sanitize_map-OptMasked p false _ (env-OptPlain p.env_provider))
  collect-CollectedMasked (some q) h = (
    sanitize_map-OptMasked p true _ h.0,
    sanitize_map-OptMasked p false _ h.1,
    sanitize_map-OptMasked p false _ h.2,
    sanitize_map-OptMasked p false _ h.3,
    sanitize_map-OptMasked p false _ h.4,
    sanitize_map-OptMasked p false _ h.5,
    sanitize_map-OptMasked p false _ (env-OptPlain p.env_provider),
  )

  put_collected-AllSafe :
      (c : CollectedContext) (fs : Fields)
      → CollectedMasked c
      → AllSafe p fs
      → AllSafe p (put_collected c fs)
  unfolding put_collected
  put_collected-AllSafe c fs m h = put_map-AllSafe p "env" c.env _ m.6 (
      put_map-AllSafe p "files" c.files _ m.5 (
        put_map-AllSafe p "session" c.session _ m.4 (
          put_map-AllSafe p "cookies" c.cookies _ m.3 (
            put_map-AllSafe p "bodyParams" c.body_params _ m.2 (
              put_map-AllSafe p "queryParams" c.query_params _ m.1 (
                put_map-AllSafe p "headers" c.headers _ m.0 (
                  put_text-AllSafe p "method" c.method _
                    (put_text-AllSafe p "url" c.url _ (put_text-AllSafe p "ip" c.ip fs h)))))))))

module _ ⦃u : Unicode⦄ (c : Circumstances) (d : Duck) where
  -- What the hypotheses of the theorems ask of a call.
  abbrev pub IsPlainCall : Type 0
  IsPlainCall = ScopePlain d.scope × RequestPlain c.request

  pub base-AllSafe : IsPlainCall → AllSafe d.pond (build_base_payload c d)
  unfolding build_base_payload AllSafe
  base-AllSafe h =
      put_collected-AllSafe d.pond _ _ (collect-CollectedMasked d.pond c.request h.1)
        (put_scope-AllSafe d.pond d.scope _ h.0 (inl tt, tt))

  common-AllSafe : (time : ℤ) → IsPlainCall → AllSafe d.pond (build_common_payload c time d)
  unfolding build_common_payload
  common-AllSafe time h = put-AllSafe d.pond "time" _ _ tt (base-AllSafe h)

module _ ⦃u : Unicode⦄ ⦃r : Reflection⦄ where
  put_details-AllSafe :
      (p : Pond) (details : Option Value) (fs : Fields)
      → AllSafe p fs
      → AllSafe p (put_details p details fs)
  put_details-AllSafe p none fs h = h
  put_details-AllSafe p (some v) fs h =
      put-AllSafe p "context" _ fs (sanitize_value-IsMasked p false _ (normalize_value-IsPlain v)) h

  -- In the payload of a log event every entry but the breadcrumbs holds the mask at every sensitive key, at
  -- any depth, whatever Go value the details are, provided the maps of the scope and of the request are
  -- JSON-like data.
  pub log_payload-AllSafe :
      (c : Circumstances) (at : Option ℤ) (severity : LevelInput) (message : String)
      (details : Option Value) (d : Duck)
      → IsPlainCall c d
      → AllSafe d.pond (log_payload c at severity message details d)
  unfolding log_payload
  log_payload-AllSafe c at severity message details d h = put_details-AllSafe d.pond details _ (
      put-AllSafe d.pond "message" _ _ tt
        (put-AllSafe d.pond "level" _ _ tt (common-AllSafe c d _ h)))

  -- In the payload of an error event every entry but the breadcrumbs, the chain of exceptions and the stack
  -- holds the mask at every sensitive key, at any depth, whatever Go value the details are, provided the maps
  -- of the scope and of the request are JSON-like data.
  pub error_payload-AllSafe :
      (c : Circumstances) (at : Option ℤ) (e : Capture) (details : Option Value) (d : Duck)
      → IsPlainCall c d
      → AllSafe d.pond (error_payload c at e details d)
  unfolding error_payload contains
  error_payload-AllSafe c at e details d h = put_details-AllSafe d.pond details _ (
      put_text-AllSafe d.pond "mechanism" _ _ (
        put-AllSafe d.pond "handled" _ _ tt (
          put-AllSafe d.pond "line" _ _ tt (
            put-AllSafe d.pond "file" _ _ tt (
              put-AllSafe d.pond "stacktraceAsString" _ _ tt (
                except-AllSafe d.pond "stacktrace" _ _ refl (
                  except-AllSafe d.pond "exception" _ _ refl
                    (put-AllSafe d.pond "message" _ _ tt (common-AllSafe c d _ h)))))))))
