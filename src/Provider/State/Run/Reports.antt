-- ===== src/Provider/State/Run/Reports.antt =====
-- providers/duckbug/provider.go: the reports of failures, and the failures that they are about.
use duckbug_go.Base.{
  ℕ, suc, ◌+◌, ltb, leb, length, length-append, Bool, true, false, Option, none, some, List, [],
  ◌∷◌, ◌++◌, ◌≡◌, refl, ap, ◌∙◌, inl, inr, Bool-cases, arith, if◌then◌else◌,
}
use duckbug_go.Value.{Fields}
use duckbug_go.Core.Types.{EventType, errors, logs, TransportResult, is_success, FailureInfo}
use duckbug_go.Provider.Config.{Settings}
use duckbug_go.Provider.State.{
  Delivery, Transport, Provider, new_provider, report, handle_transport_result, deliver, send_items,
  flush_type, set_buffer, is_direct, capture_prepared, handle_dropped_event, enqueue, accept,
  prepared, capture_event, receive, flush_buffers,
}
use duckbug_go.Provider.State.Order.{deliver_fields, sent_now}
use duckbug_go.Provider.State.Run.{Op, capture, take, tick, take_first, step, run, is_full}

-- What was handed to the failure handler or printed.
abbrev pub reports : Provider → ℕ
reports p = length p.failures + length p.printed

abbrev pub failure_of : TransportResult → ℕ
failure_of r = if is_success r then 0 else 1

-- The requests that failed.
unfoldable pub failed : List Delivery → ℕ
failed [] = 0
failed (d ∷ ds) = failure_of d.result + failed ds

failed-append :
    (ds : List Delivery) (d : Delivery) → failed (ds ++ d ∷ []) ≡ failed ds + failure_of d.result
unfolding failed
failed-append [] d = omega arith
failed-append (e ∷ ds) d = omega (arith, failed-append ds d)

reports-report : (p : Provider) (info : FailureInfo) → reports (report p info) ≡ suc (reports p)
unfolding report
reports-report p info = either p.has_failure_handler
  where
    either :
        (b : Bool)
        → reports (
            if b
            then record p { failures = p.failures ++ info ∷ [] }
            else record p { printed = p.printed ++ info.message ∷ [] })
          ≡ suc (reports p)
    either true = omega (arith, length-append p.failures (info ∷ []))
    either false = omega (arith, length-append p.printed (info.message ∷ []))

report-sent : (p : Provider) (info : FailureInfo) → (report p info).sent ≡ p.sent
unfolding report
report-sent p info = either p.has_failure_handler
  where
    either :
        (b : Bool)
        → (if b
            then record p { failures = p.failures ++ info ∷ [] }
            else record p { printed = p.printed ++ info.message ∷ [] }).sent
          ≡ p.sent
    either true = refl
    either false = refl

reports-handle_transport_result :
    (p : Provider) (t : EventType) (items : List Fields) (r : TransportResult)
    → reports (handle_transport_result p t items r) ≡ reports p + failure_of r
unfolding handle_transport_result
reports-handle_transport_result p t items r = elim (Bool-cases (is_success r)) [
  | inl e ↦ rw e (omega arith)
  | inr e ↦ rw e (reports-report p _ ∙ omega arith)
]

-- As many reports as failed requests, and `k` more.
abbrev Even : ℕ → Provider → Type 0
Even k p = reports p ≡ failed p.sent + k

deliver-Even :
    (k : ℕ) (p : Provider) (t : EventType) (batch : Bool) (items : List Fields)
    → Even k p
    → Even k (deliver p t batch items)
unfolding deliver
deliver-Even k p t batch items h =
    reports-handle_transport_result _ t items (p.transport p.sent t batch items)
    ∙ omega (
      arith,
      h,
      failed-append p.sent (sent_now p t batch items),
      ap failed (deliver_fields p t batch items).0,
    )

send_items-Even :
    (k : ℕ) (p : Provider) (t : EventType) (items : List Fields)
    → Even k p
    → Even k (send_items p t items)
send_items-Even k p t [] h = h
send_items-Even k p t (x ∷ []) h = deliver-Even k p t false (x ∷ []) h
send_items-Even k p t (x ∷ y ∷ items) h = deliver-Even k p t true (x ∷ y ∷ items) h

flush_type-Even : (k : ℕ) (p : Provider) (t : EventType) → Even k p → Even k (flush_type p t)
unfolding flush_type
flush_type-Even k p t h =
    send_items-Even k (record p { buffers = set_buffer t [] p.buffers }) t (p.buffers t) h

flush_buffers-Even : (k : ℕ) (p : Provider) → Even k p → Even k (flush_buffers p)
unfolding flush_buffers
flush_buffers-Even k p h =
    flush_type-Even k (flush_type p errors) logs (flush_type-Even k p errors h)

capture_prepared-Even :
    (k : ℕ) (p : Provider) (t : EventType) (q : Fields) → Even k p → Even k (capture_prepared p t q)
unfolding capture_prepared
capture_prepared-Even k p t q h = either (is_direct p t)
  where
    items : List Fields
    items = p.buffers t ++ q ∷ []

    buffered : Provider
    buffered = record p { buffers = set_buffer t items p.buffers }

    full : (b : Bool) → Even k (if b then flush_type buffered t else buffered)
    full true = flush_type-Even k buffered t h
    full false = h

    either :
        (b : Bool)
        → Even k (
            if b
            then deliver p t false (q ∷ [])
            else if leb p.batch_size (length items)
            then flush_type buffered t
            else buffered)
    either true = deliver-Even k p t false (q ∷ []) h
    either false = full (leb p.batch_size (length items))

-- Whether an operation meets a full queue with a payload.
abbrev pub counts : Bool → Option Fields → ℕ
counts full none = 0
counts full (some q) = if full then 1 else 0

abbrev pub dropped_by : Provider → Op → ℕ
dropped_by p (capture minted e) = counts (is_full p) (prepared p minted e)
dropped_by p take = 0
dropped_by p tick = 0

enqueue-Even :
    (k : ℕ) (p : Provider) (t : EventType) (q : Fields)
    → Even k p
    → Even
        (k + (if (if ltb (length p.queue) p.queue_size then false else true) then 1 else 0))
        (enqueue p t q)
unfolding enqueue handle_dropped_event
enqueue-Even k p t q h = either (ltb (length p.queue) p.queue_size)
  where
    either :
        (b : Bool)
        → Even (k + (if (if b then false else true) then 1 else 0)) (
            if b
            then record p { pending = p.pending + 1; queue = p.queue ++ (t, q) ∷ [] }
            else handle_dropped_event p t q)
    either true = omega (arith, h)
    either false = reports-report _ _ ∙ omega (arith, h, ap failed (report-sent _ _))

accept-Even :
    (k : ℕ) (p : Provider) (t : EventType) (o : Option Fields)
    → Even k p
    → Even (k + counts (is_full p) o) (accept p t o)
accept-Even k p t none h = omega (arith, h)
accept-Even k p t (some q) h = either p.async
  where
    either :
        (b : Bool)
        → Even
            (k
              + (if (if b
                    then (if ltb (length p.queue) p.queue_size then false else true)
                    else false)
                  then 1
                  else 0))
            (if b then enqueue p t q else capture_prepared p t q)
    either true = enqueue-Even k p t q h
    either false = capture_prepared-Even k p t q h ∙ omega arith

take_first-Even :
    (k : ℕ) (p : Provider) (q : List (EventType × Fields)) → Even k p → Even k (take_first p q)
unfolding take_first receive
take_first-Even k p [] h = h
take_first-Even k p ((t, x) ∷ rest) h = capture_prepared-Even k (record p { queue = rest }) t x h

step-Even : (k : ℕ) (p : Provider) (op : Op) → Even k p → Even (k + dropped_by p op) (step p op)
unfolding step capture_event
step-Even k p (capture minted e) h = accept-Even k p e.type (prepared p minted e) h
step-Even k p take h = take_first-Even k p p.queue h ∙ omega arith
step-Even k p tick h = flush_buffers-Even k p h ∙ omega arith

-- The payloads that met a full queue.
unfoldable pub drops : Provider → List Op → ℕ
drops p [] = 0
drops p (op ∷ ops) = dropped_by p op + drops (step p op) ops

run-Even : (k : ℕ) (p : Provider) (ops : List Op) → Even k p → Even (k + drops p ops) (run p ops)
unfolding run drops
run-Even k p [] h = omega (arith, h)
run-Even k p (op ∷ ops) h =
    run-Even (k + dropped_by p op) (step p op) ops (step-Even k p op h) ∙ omega arith

-- After any interleaving of captures, worker turns and ticks, there are as many failure reports, handed to the
-- handler or printed, as there are requests that failed and payloads that met a full queue.
pub reports-run :
    (s : Settings) (f : Transport) (ops : List Op)
    → reports (run (new_provider s f) ops)
      ≡ failed (run (new_provider s f) ops).sent + drops (new_provider s f) ops
unfolding new_provider failed
reports-run s f ops = run-Even 0 (new_provider s f) ops refl ∙ omega arith
