-- ===== src/Core/Duck/Dispatch.antt =====
-- core/duck.go: the payload of a transaction, and the calls of the providers.
use duckbug_go.Base.{Bool, true, false, String, Option, none, some, List, [], ◌∷◌, if◌then◌else◌}
use duckbug_go.Base.Int.{ℤ}
use duckbug_go.Text.{Unicode}
use duckbug_go.Value.{
  Value, null, str, int, list, Items, nil, cons, Fields, insert, is_empty, entries,
}
use duckbug_go.Pond.{Pond, sanitize_value}
use duckbug_go.Core.Types.{EventType, errors, logs, transactions, Event}
use duckbug_go.Core.Level.{LevelInput}
use duckbug_go.Core.Util.{Reflection, clone_map}
use duckbug_go.Core.Transaction.{
  Span, Transaction, span_payload, get_trace_id, get_span_id, get_parent_span_id, get_name, get_op,
  get_status, get_context, get_measurements, get_spans, get_start, get_end, duration_ms,
}
use duckbug_go.Core.Duck.{
  Duck, Handle, ProviderCall, captures, flushes, Circumstances, Capture, build_base_payload,
  error_payload, log_payload, put_text,
}

-- `NewEvent`.
unfoldable pub new_event : EventType → Fields → Event
new_event t payload = record { type = t; payload = clone_map (some payload) }

-- The loop of `dispatch`.
unfoldable pub dispatch_to : List Handle → Event → List ProviderCall
dispatch_to [] e = []
dispatch_to (h ∷ hs) e = captures h.number e ∷ dispatch_to hs e

unfoldable pub dispatch : Duck → Event → List ProviderCall
unfolding dispatch_to
dispatch d e = dispatch_to d.providers e

unfoldable pub flush_all : List Handle → List ProviderCall
flush_all [] = []
flush_all (h ∷ hs) =
    let rest = flush_all hs in if h.flushable then flushes h.number ∷ rest else rest

-- `Flush` of the client.
unfoldable pub flush_duck : Duck → List ProviderCall
unfolding flush_all
flush_duck d = flush_all d.providers

abbrev pub is_null : Value → Bool
is_null null = true
is_null v = false

-- An entry for a value that is not nil.
abbrev pub put_value : ⦃u : Unicode⦄ → Pond → String → Value → Fields → Fields
put_value p k v fs = if is_null v then fs else insert k (sanitize_value p false v) fs

module _ ⦃u : Unicode⦄ where
  unfoldable pub span_items : Pond → List Span → Items
  span_items p [] = nil
  span_items p (s ∷ ss) =
      cons (sanitize_value p false (Value.map (span_payload s))) (span_items p ss)

  abbrev pub put_spans : Pond → List Span → Fields → Fields
  put_spans p [] fs = fs
  put_spans p (s ∷ ss) fs = insert "spans" (list (span_items p (s ∷ ss))) fs

  abbrev pub put_measurements : Pond → Option Fields → Fields → Fields
  put_measurements p m fs =
      if is_empty (entries m)
      then fs
      else insert "measurements" (sanitize_value p false (Value.map (entries m))) fs

module _ ⦃u : Unicode⦄ ⦃r : Reflection⦄ where
  abbrev pub end_time : Option Transaction → ℤ
  end_time t = elim (get_end t) [ none ↦ get_start t | some stop ↦ stop ]

  unfoldable pub build_transaction_payload : Circumstances → Transaction → Duck → Fields
  unfolding span_items
  build_transaction_payload c transaction d =
      let t = some transaction in
      let named = insert "op" (str (get_op t)) (
        insert "transaction" (str (get_name t)) (
          put_text "parentSpanId" (get_parent_span_id t) (
            insert "spanId" (str (get_span_id t))
              (insert "traceId" (str (get_trace_id t)) (build_base_payload c d))))) in
      let measured =
        put_measurements d.pond (get_measurements t)
          (put_value d.pond "context" (get_context t) (put_text "status" (get_status t) named)) in
      insert "duration" (int (duration_ms t)) (
        insert "endTime" (int (end_time t))
          (insert "startTime" (int (get_start t)) (put_spans d.pond (get_spans t) measured)))

  -- `captureErrorAt` at an error that is not nil, on a client that may be nil.
  unfoldable pub capture_error_at :
      Option Duck → Circumstances → Option ℤ → Capture → Option Value → List ProviderCall
  unfolding dispatch new_event
  capture_error_at none c at e details = []
  capture_error_at (some d) c at e details =
      dispatch d (new_event errors (error_payload c at e details d))

  unfoldable pub log_context_at :
      Option Duck
      → Circumstances
      → Option ℤ
      → LevelInput
      → String
      → Option Value
      → List ProviderCall
  unfolding dispatch new_event
  log_context_at none c at severity message details = []
  log_context_at (some d) c at severity message details =
      dispatch d (new_event logs (log_payload c at severity message details d))

  unfoldable pub capture_transaction_context :
      Option Duck → Circumstances → Option Transaction → List ProviderCall
  unfolding dispatch new_event
  capture_transaction_context none c transaction = []
  capture_transaction_context (some d) c none = []
  capture_transaction_context (some d) c (some t) =
      dispatch d (new_event transactions (build_transaction_payload c t d))
