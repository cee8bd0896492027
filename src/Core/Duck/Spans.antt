-- ===== src/Core/Duck/Spans.antt =====
-- core/duck.go: the payload of a transaction, and what is masked in it.
use duckbug_go.Base.{
  String, str_eq, Bool, true, false, not, Option, none, some, List, [], ◌∷◌, if◌then◌else◌,
  Bool-cases, inl, inr, All,
}
use duckbug_go.Text.{Unicode}
use duckbug_go.Value.{Value, str, list, Fields, end, field, of_map, insert, entries, is_empty}
use duckbug_go.Pond.{Pond}
use duckbug_go.Pond.Masked.{IsPlain, IsPlainFields, IsMasked, sanitize_value-IsMasked}
use duckbug_go.Core.Util.{Reflection, clone_map, clone_value, normalize_value}
use duckbug_go.Core.Util.Normal.{normalize_value-IsPlain}
use duckbug_go.Core.Transaction.{
  Span, Transaction, span_payload, get_context, get_measurements, get_spans, get_parent_span_id,
  get_status,
}
use duckbug_go.Core.Duck.{Duck, Circumstances}
use duckbug_go.Core.Duck.Dispatch.{
  span_items, put_spans, put_measurements, put_value, is_null, build_transaction_payload,
}
use duckbug_go.Core.Duck.Plain.{OptPlain, clone_map-OptPlain, clone_value-IsPlain}
use duckbug_go.Core.Duck.Safe.{AllSafe, put-AllSafe, put_text-AllSafe}
use duckbug_go.Core.Duck.Sanitized.{IsPlainCall, base-AllSafe}

pub insert-IsPlain :
    (k : String) (v : Value) (fs : Fields)
    → IsPlain v
    → IsPlainFields fs
    → IsPlainFields (insert k v fs)
unfolding insert
insert-IsPlain k v end i h = (i, tt)
insert-IsPlain k v (field j w fs) i h = elim (Bool-cases (str_eq j k)) [
  | inl e ↦ rw e (i, h.1)
  | inr e ↦ rw e (h.0, insert-IsPlain k v fs i h.1)
]

put-IsPlain :
    (b : Bool) (k : String) (v : Value) (fs : Fields)
    → IsPlain v
    → IsPlainFields fs
    → IsPlainFields (if b then insert k v fs else fs)
put-IsPlain true k v fs i h = insert-IsPlain k v fs i h
put-IsPlain false k v fs i h = h

of_map-IsPlain : (m : Option Fields) → OptPlain m → IsPlain (of_map m)
of_map-IsPlain none h = tt
of_map-IsPlain (some fs) h = h

span_payload-IsPlain : (s : Span) → OptPlain s.span_data → IsPlainFields (span_payload s)
unfolding span_payload
span_payload-IsPlain s h =
    put-IsPlain (not (is_empty (entries s.span_data))) "data" _ _
      (of_map-IsPlain _ (clone_map-OptPlain s.span_data h))
      (put-IsPlain (not (str_eq s.status "")) "status" (str s.status) _ tt (
        put-IsPlain (not (str_eq s.description "")) "description" (str s.description) _ tt
          (tt, (tt, (tt, (tt, (tt, (tt, (tt, tt)))))))))

entries-IsPlain : (m : Option Fields) → OptPlain m → IsPlainFields (entries m)
entries-IsPlain none h = tt
entries-IsPlain (some fs) h = h

-- The maps that a transaction holds are JSON-like data, as its methods leave them.
abbrev pub TransactionPlain : Transaction → Type 0
TransactionPlain t = OptPlain t.measurements × All (λ s. OptPlain s.span_data) t.spans

module _ ⦃u : Unicode⦄ (p : Pond) where
  span_items-IsMasked :
      (ss : List Span) → All (λ s. OptPlain s.span_data) ss → IsMasked p (list (span_items p ss))
  unfolding span_items
  span_items-IsMasked [] h = tt
  span_items-IsMasked (s ∷ ss) h = (
    sanitize_value-IsMasked p false (Value.map (span_payload s)) (span_payload-IsPlain s h.0),
    span_items-IsMasked ss h.1,
  )

  put_spans-AllSafe :
      (ss : List Span) (fs : Fields)
      → All (λ s. OptPlain s.span_data) ss
      → AllSafe p fs
      → AllSafe p (put_spans p ss fs)
  put_spans-AllSafe [] fs i h = h
  put_spans-AllSafe (s ∷ ss) fs i h =
      put-AllSafe p "spans" (list (span_items p (s ∷ ss))) fs (span_items-IsMasked (s ∷ ss) i) h

  put_value-AllSafe :
      (k : String) (v : Value) (fs : Fields)
      → IsPlain v
      → AllSafe p fs
      → AllSafe p (put_value p k v fs)
  put_value-AllSafe k v fs i h = elim (Bool-cases (is_null v)) [
    | inl e ↦ rw e h
    | inr e ↦ rw e (put-AllSafe p k _ fs (sanitize_value-IsMasked p false v i) h)
  ]

  put_measurements-AllSafe :
      (m : Option Fields) (fs : Fields)
      → OptPlain m
      → AllSafe p fs
      → AllSafe p (put_measurements p m fs)
  put_measurements-AllSafe m fs i h = elim (Bool-cases (is_empty (entries m))) [
    | inl e ↦ rw e h
    | inr e ↦ rw e (
        put-AllSafe p "measurements" _ fs
          (sanitize_value-IsMasked p false (Value.map (entries m)) (entries-IsPlain m i)) h)
  ]

module _ ⦃u : Unicode⦄ ⦃r : Reflection⦄ where
  pub transaction_payload-AllSafe :
      (c : Circumstances) (t : Transaction) (d : Duck)
      → IsPlainCall c d
      → TransactionPlain t
      → AllSafe d.pond (build_transaction_payload c t d)
  unfolding build_transaction_payload get_context get_measurements get_spans
  transaction_payload-AllSafe c t d h i = put-AllSafe d.pond "duration" _ _ tt (
      put-AllSafe d.pond "endTime" _ _ tt (
        put-AllSafe d.pond "startTime" _ _ tt (
          put_spans-AllSafe d.pond t.spans _ i.1 (
            put_measurements-AllSafe d.pond (clone_map t.measurements) _
              (clone_map-OptPlain t.measurements i.0)
              (put_value-AllSafe d.pond "context" (clone_value (normalize_value t.context)) _
                (clone_value-IsPlain _ (normalize_value-IsPlain t.context))
                (put_text-AllSafe d.pond "status" (get_status (some t)) _ (
                  put-AllSafe d.pond "op" _ _ tt (
                    put-AllSafe d.pond "transaction" _ _ tt (
                      put_text-AllSafe d.pond "parentSpanId" (get_parent_span_id (some t)) _ (
                        put-AllSafe d.pond "spanId" _ _ tt
                          (put-AllSafe d.pond "traceId" _ _ tt (base-AllSafe c d h))))))))))))
