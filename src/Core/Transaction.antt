-- ===== src/Core/Transaction.antt =====
-- core/transaction.go: transactions and their spans. A `*Span` that `StartChild` returns is shared with the
-- transaction: it is a position in the transaction's list of spans, and its methods act there. Each call of
-- `now` or of an id generator enters as its result. Times are `int64` in milliseconds.
pub mod Times
pub mod Children
use duckbug_go.Base.{
  ℕ, zero, suc, String, str_eq, Bool, true, false, not, ◌&&◌, Option, none, some, List, [], ◌∷◌,
  ◌++◌, if◌then◌else◌, length, is_nil, take,
}
use duckbug_go.Base.Int.{ℤ, pos, ltb_ℤ, sub_int64}
use duckbug_go.Text.{trim_space}
use duckbug_go.Value.{
  Value, null, str, int, Fields, end, field, insert, of_map, non_empty, entries, is_empty,
}
use duckbug_go.Value
use duckbug_go.Core.Util.{Reflection, normalize_value, normalize_string_map, clone_map, clone_value}

pub record Span : Type 0 where
  pub trace_id : String
  pub span_id : String
  pub parent_span_id : String
  pub op : String
  pub description : String
  pub start_timestamp_ms : ℤ
  pub end_timestamp_ms : Option ℤ
  pub status : String
  pub span_data : Option Fields

-- `context` is null until it is set.
pub record Transaction : Type 0 where
  pub name : String
  pub op : String
  pub trace_id : String
  pub span_id : String
  pub parent_span_id : String
  pub start_timestamp_ms : ℤ
  pub end_timestamp_ms : Option ℤ
  pub status : String
  pub context : Value
  pub measurements : Option Fields
  pub spans : List Span

abbrev or_text : String → String → String
or_text fallback s = if str_eq s "" then fallback else s

-- `defaultIfBlank`.
unfoldable pub default_if_blank : String → String → String
default_if_blank value fallback = or_text fallback (trim_space value)

-- `newTransaction`; the last two arguments are what `defaultTraceID` and `defaultSpanID` return.
unfoldable pub new_transaction :
    String → String → String → String → ℤ → String → String → Transaction
new_transaction name op trace_id span_id start_timestamp_ms new_trace_id new_span_id =
    let name' = if str_eq (trim_space name) "" then "transaction" else name in
    let op' = if str_eq (trim_space op) "" then "custom" else op in
    record {
      name = trim_space name';
      op = trim_space op';
      trace_id = or_text new_trace_id trace_id;
      span_id = or_text new_span_id span_id;
      parent_span_id = "";
      start_timestamp_ms = start_timestamp_ms;
      end_timestamp_ms = none;
      status = "";
      context = null;
      measurements = none;
      spans = [];
    }

-- A getter, on a pointer that may be nil.
abbrev pub get {ℓ} : {T : Type 0} {A : Type ℓ} → A → (T → A) → Option T → A
get z f none = z
get z f (some t) = f t

unfoldable pub get_name : Option Transaction → String
get_name = get "" (λ t. t.name)

unfoldable pub get_op : Option Transaction → String
get_op = get "" (λ t. t.op)

unfoldable pub get_trace_id : Option Transaction → String
get_trace_id = get "" (λ t. t.trace_id)

unfoldable pub get_span_id : Option Transaction → String
get_span_id = get "" (λ t. t.span_id)

unfoldable pub get_parent_span_id : Option Transaction → String
get_parent_span_id = get "" (λ t. t.parent_span_id)

unfoldable pub get_start : Option Transaction → ℤ
get_start = get (pos 0) (λ t. t.start_timestamp_ms)

unfoldable pub get_end : Option Transaction → Option ℤ
get_end = get none (λ t. t.end_timestamp_ms)

unfoldable pub get_status : Option Transaction → String
get_status = get "" (λ t. t.status)

unfoldable pub get_context : ⦃r : Reflection⦄ → Option Transaction → Value
get_context = get null (λ t. clone_value (normalize_value t.context))

unfoldable pub get_measurements : Option Transaction → Option Fields
get_measurements = get none (λ t. clone_map t.measurements)

unfoldable pub get_spans : Option Transaction → List Span
get_spans = get [] (λ t. t.spans)

unfoldable pub set_parent_span_id : String → Transaction → Transaction
set_parent_span_id value t = record t { parent_span_id = trim_space value }

unfoldable pub set_context : ⦃r : Reflection⦄ → Value → Transaction → Transaction
set_context value t = record t { context = normalize_value value }

-- The entry of a measurement.
abbrev pub measurement : ⦃r : Reflection⦄ → Value → String → Fields
measurement value unit =
    let m = field "value" (normalize_value value) end in
    let u = trim_space unit in if str_eq u "" then m else insert "unit" (str u) m

unfoldable pub add_measurement :
    ⦃r : Reflection⦄ → String → Value → String → Transaction → Transaction
add_measurement key value unit t =
    let k = trim_space key in
    if str_eq k "" then t else record t {
      measurements = some (insert k (Value.map (measurement value unit)) (entries t.measurements));
    }

-- The span that `StartChild` adds.
abbrev pub child : String → String → String → ℤ → Transaction → Span
child op description new_span_id now t = record {
  trace_id = t.trace_id;
  span_id = new_span_id;
  parent_span_id = t.span_id;
  op = default_if_blank op "custom";
  description = trim_space description;
  start_timestamp_ms = now;
  end_timestamp_ms = none;
  status = "";
  span_data = none;
}

-- `StartChild`: the transaction, and the position of the new span.
unfoldable pub start_child : String → String → String → ℤ → Transaction → Transaction × ℕ
unfolding default_if_blank
start_child op description new_span_id now t =
    (record t { spans = t.spans ++ child op description new_span_id now t ∷ [] }, length t.spans)

-- A status that is not blank replaces the old one.
abbrev new_status : String → String → String
new_status status old = or_text old (trim_space status)

-- The first of the given end times, if there is one.
abbrev end_or : ℤ → List ℤ → ℤ
end_or now [] = now
end_or now (t ∷ ts) = t

unfoldable pub finish : String → List ℤ → ℤ → Transaction → Transaction
finish status ends now t = record t {
  status = new_status status t.status;
  end_timestamp_ms = some (end_or now ends);
}

abbrev pub end_of : ℤ → Option ℤ → ℤ
end_of start none = start
end_of start (some t) = t

-- `DurationMs`.
unfoldable pub duration_ms : Option Transaction → ℤ
duration_ms none = pos 0
duration_ms (some t) =
    let stop = end_of t.start_timestamp_ms t.end_timestamp_ms in
    if ltb_ℤ stop t.start_timestamp_ms then pos 0 else sub_int64 stop t.start_timestamp_ms

unfoldable pub get_span_trace_id : Option Span → String
get_span_trace_id = get "" (λ s. s.trace_id)

unfoldable pub get_span_span_id : Option Span → String
get_span_span_id = get "" (λ s. s.span_id)

unfoldable pub get_span_parent_span_id : Option Span → String
get_span_parent_span_id = get "" (λ s. s.parent_span_id)

unfoldable pub set_data : ⦃r : Reflection⦄ → Option Fields → Span → Span
set_data fields s = record s { span_data = normalize_string_map fields }

-- `Finish` of a span.
unfoldable pub finish_span : String → List ℤ → ℤ → Span → Span
finish_span status ends now s = record s {
  status = new_status status s.status;
  end_timestamp_ms = some (end_or now ends);
}

-- `maxInt64`.
unfoldable pub max_int64 : ℤ → ℤ → ℤ
max_int64 left right = if ltb_ℤ right left then left else right

abbrev put_if : Bool → String → Value → Fields → Fields
put_if test k v fs = if test then insert k v fs else fs

-- `payload` of a span.
unfoldable pub span_payload : Span → Fields
unfolding max_int64
span_payload s =
    let stop = end_of s.start_timestamp_ms s.end_timestamp_ms in
    put_if (not (is_empty (entries s.span_data))) "data" (of_map (clone_map s.span_data)) (
      put_if (not (str_eq s.status "")) "status" (str s.status) (
        put_if (not (str_eq s.description "")) "description" (str s.description) (
          field "traceId" (str s.trace_id) (
            field "spanId" (str s.span_id) (
              field "parentSpanId" (str s.parent_span_id) (
                field "op" (str s.op) (
                  field "startTime" (int s.start_timestamp_ms) (
                    field "endTime" (int stop) (
                      field "duration"
                        (int (max_int64 (pos 0) (sub_int64 stop s.start_timestamp_ms))) end)))))))))

-- A method call on the span at a position.
unfoldable pub on_span : ℕ → (Span → Span) → List Span → List Span
on_span i f [] = []
on_span zero f (s ∷ ss) = f s ∷ ss
on_span (suc i) f (s ∷ ss) = s ∷ on_span i f ss
