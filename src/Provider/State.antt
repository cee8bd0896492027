-- ===== src/Provider/State.antt =====
-- providers/duckbug/provider.go: the provider's state and its methods. The transport is code that the user
-- may replace: what it answers may depend on all that was sent before. Sent requests, failures handed to
-- the failure handler and printed lines are recorded in order. Contexts are passed on and not read here,
-- but for the wait of `Flush`.
pub mod Order
pub mod Bounds
pub mod Run
pub mod Threads
use duckbug_go.Base.{
  ℕ, suc, ◌+◌, ◌-◌, ◌^◌, ◌%◌, String, str_eq, leb, ltb, Bool, true, false, not, ◌||◌, Option, none,
  some, List, [], ◌∷◌, ◌++◌, if◌then◌else◌, length,
}
use Prim.Native.String.{◌++◌ as str_append}
use duckbug_go.Text.{trim_space, is_blank, itoa}
use duckbug_go.Value.{Fields}
use duckbug_go.Core.Types.{
  EventType, errors, logs, transactions, other, same_type, type_name, Event, TransportResult,
  is_success, FailureInfo,
}
use duckbug_go.Provider.Payload.{prepare_payload}
use duckbug_go.Provider.Config.{Settings}

-- A call of the transport's `Send`, or of `SendBatch` if it is a batch, with its result.
pub record Delivery : Type 0 where
  pub type : EventType
  pub batch : Bool
  pub items : List Fields
  pub result : TransportResult

abbrev pub Transport : Type 0
Transport = List Delivery → EventType → Bool → List Fields → TransportResult

pub record Provider : Type 0 where
  pub settings : Settings
  pub open settings use *
  pub transport : Transport
  pub buffers : EventType → List Fields
  pub queue : List (EventType × Fields)
  pub pending : ℕ
  pub dropped : ℕ
  pub sent : List Delivery
  pub failures : List FailureInfo
  pub printed : List String

unfoldable pub new_provider : Settings → Transport → Provider
new_provider settings transport = record {
  settings = settings;
  transport = transport;
  buffers = λ t. [];
  queue = [];
  pending = 0;
  dropped = 0;
  sent = [];
  failures = [];
  printed = [];
}

-- `p.buffers[t] = items`.
abbrev pub set_buffer :
    EventType → List Fields → (EventType → List Fields) → EventType → List Fields
set_buffer t items buffers t' = if same_type t t' then items else buffers t'

infixr 65 ◌<>◌
abbrev ◌<>◌ : String → String → String
a <> b = str_append a b

abbrev bool_text : Bool → String
bool_text true = "true"
bool_text false = "false"

unfoldable pub empty_if_blank : String → String → String
empty_if_blank value fallback = if is_blank value then fallback else value

-- The line about a failed request.
unfoldable pub failure_message : EventType → ℕ → TransportResult → String
failure_message t count r =
    let body = trim_space r.response_body in
    "[DuckBug] transport failed for "
    <> type_name t
    <> " ("
    <> itoa count
    <> " item(s), status="
    <> itoa r.status_code
    <> ", attempts="
    <> itoa r.attempts
    <> ", duplicate="
    <> bool_text r.duplicate
    <> ", error="
    <> empty_if_blank r.error_message "unknown"
    <> ")"
    <> (if str_eq body "" then "" else ": " <> body)

-- A failure goes to the handler, and is printed if there is none.
unfoldable pub report : Provider → FailureInfo → Provider
report p info =
    if p.has_failure_handler
    then record p { failures = p.failures ++ info ∷ [] }
    else record p { printed = p.printed ++ info.message ∷ [] }

unfoldable pub handle_transport_result :
    Provider → EventType → List Fields → TransportResult → Provider
unfolding report
handle_transport_result p t items result =
    if is_success result
    then p
    else report p (record {
      type = t;
      items = items;
      result = result;
      message = failure_message t (length items) result;
    })

-- A call of the transport, and what is made of its result.
unfoldable pub deliver : Provider → EventType → Bool → List Fields → Provider
unfolding handle_transport_result
deliver p t batch items =
    let result = p.transport p.sent t batch items in
    let delivery : Delivery = record { type = t; batch = batch; items = items; result = result } in
    handle_transport_result (record p { sent = p.sent ++ delivery ∷ [] }) t items result

abbrev send_items : Provider → EventType → List Fields → Provider
send_items p t [] = p
send_items p t (x ∷ []) = deliver p t false (x ∷ [])
send_items p t (x ∷ y ∷ items) = deliver p t true (x ∷ y ∷ items)

unfoldable pub flush_type : Provider → EventType → Provider
flush_type p t = send_items (record p { buffers = set_buffer t [] p.buffers }) t (p.buffers t)

-- Whether the payloads of a type are sent at once.
abbrev pub is_direct : Provider → EventType → Bool
is_direct p t = leb p.batch_size 1 || same_type t transactions

unfoldable pub capture_prepared : Provider → EventType → Fields → Provider
capture_prepared p t payload =
    if is_direct p t
    then deliver p t false (payload ∷ [])
    else (let items = p.buffers t ++ payload ∷ [] in
        let buffered = record p { buffers = set_buffer t items p.buffers } in
        if leb p.batch_size (length items) then flush_type buffered t else buffered)

unfoldable pub handle_dropped_event : Provider → EventType → Fields → Provider
handle_dropped_event p t payload =
    let dropped = (p.dropped + 1) % 2 ^ 64 in
    report (record p { dropped = dropped })
      (record {
        type = t;
        items = payload ∷ [];
        result = record {
          status_code = 0;
          response_body = "";
          error_message = "provider queue is full";
          attempts = 0;
          duplicate = false;
          items = [];
        };
        message =
            "[DuckBug] dropped "
            <> type_name t
            <> " event because provider queue is full (dropped="
            <> itoa dropped
            <> ")";
      })

-- The queue takes an item while it has room, and the send does not wait.
unfoldable pub enqueue : Provider → EventType → Fields → Provider
enqueue p t payload =
    if ltb (length p.queue) p.queue_size
    then record p { pending = p.pending + 1; queue = p.queue ++ (t, payload) ∷ [] }
    else handle_dropped_event p t payload

abbrev pub is_declared : EventType → Bool
is_declared (other s) = false
is_declared errors = true
is_declared logs = true
is_declared transactions = true

abbrev pub accept : Provider → EventType → Option Fields → Provider
accept p t none = p
accept p t (some payload) = if p.async then enqueue p t payload else capture_prepared p t payload

-- What is sent or queued of an event; `minted` is what `NewEventID` returns if it is called.
unfoldable pub prepared : Provider → String → Event → Option Fields
prepared p minted e =
    if is_declared e.type
    then prepare_payload p.privacy p.before_send minted e.type e.payload
    else none

unfoldable pub capture_event : Provider → String → Event → Provider
unfolding prepared
capture_event p minted e = accept p e.type (prepared p minted e)

-- One turn of `run` that takes an item; `Done` follows the capture.
unfoldable pub receive : Provider → EventType × Fields → List (EventType × Fields) → Provider
receive p (t, payload) rest =
    let q = capture_prepared (record p { queue = rest }) t payload in
    record q { pending = q.pending - 1 }

-- The flushes of a tick, and of `Flush` when it has not given up.
unfoldable pub flush_buffers : Provider → Provider
flush_buffers p = flush_type (flush_type p errors) logs

-- The worker takes what is queued, item by item.
unfoldable pub drain : Provider → List (EventType × Fields) → Provider
drain p [] = p
drain p (item ∷ rest) = drain (receive p item rest) rest

-- `Flush` with a context that does not end: an asynchronous provider waits until nothing is pending.
unfoldable pub flush : Provider → Provider
unfolding flush_buffers drain
flush p = flush_buffers (if p.async then drain p p.queue else p)
