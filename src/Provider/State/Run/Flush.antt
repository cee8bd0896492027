-- ===== src/Provider/State/Run/Flush.antt =====
-- providers/duckbug/provider.go: what `Flush` leaves.
use duckbug_go.Base.{
  Bool, true, false, List, [], ◌∷◌, ◌++◌, append-nil, ◌≡◌, refl, ap, ◌∙◌, sym, if◌then◌else◌,
}
use duckbug_go.Value.{Fields}
use duckbug_go.Core.Types.{EventType, errors, logs, transactions}
use duckbug_go.Provider.State.{Provider, receive, flush_buffers, flush_type, drain, flush}
use duckbug_go.Provider.State.Order.{delivered}
use duckbug_go.Provider.State.Bounds.{capture_prepared_rest, flush_type_fields, flush_type_queue}
use duckbug_go.Provider.State.Run.{queued, total}
use duckbug_go.Provider.State.Run.Flow.{
  Healthy, flush_buffers-Healthy, receive-Healthy, total-receive, total-flush_buffers,
}

pub receive_queue :
    (p : Provider) (item : EventType × Fields) (rest : List (EventType × Fields))
    → (receive p item rest).queue ≡ rest
unfolding receive
receive_queue p (t, x) rest = (capture_prepared_rest (record p { queue = rest }) t x).0

-- The worker empties the queue and keeps the payloads in order.
abbrev Drained : Provider → Provider → Type 0
Drained p q = Healthy q × (q.queue ≡ []) × ((t : EventType) → total t q ≡ total t p)

drain_lem :
    (p : Provider) (items : List (EventType × Fields))
    → p.queue ≡ items
    → Healthy p
    → Drained p (drain p items)
unfolding drain
drain_lem p [] e h = (h, e, λ t. refl)
drain_lem p (item ∷ rest) e h =
    let (healthy, empty, same) =
      drain_lem (receive p item rest) rest (receive_queue p item rest)
        (receive-Healthy p item rest e h) in
    (healthy, empty, λ t. same t ∙ total-receive p item rest t e h)

settle_lem : (p : Provider) → Healthy p → Drained p (if p.async then drain p p.queue else p)
settle_lem p h = either p.async refl
  where
    either : (b : Bool) → p.async ≡ b → Drained p (if b then drain p p.queue else p)
    either true a = drain_lem p p.queue refl h
    either false a = (h, h.unqueued a, λ t. refl)

flush_buffers_empty :
    (p : Provider)
    → ((flush_buffers p).buffers errors ≡ [])
      × ((flush_buffers p).buffers logs ≡ [])
      × ((flush_buffers p).queue ≡ p.queue)
unfolding flush_buffers
flush_buffers_empty p =
    let first = flush_type_fields p errors in
    let last = flush_type_fields (flush_type p errors) logs in
    (
      ap (λ b. b errors) last.0 ∙ ap (λ b. b errors) first.0,
      ap (λ b. b logs) last.0,
      flush_type_queue (flush_type p errors) logs ∙ flush_type_queue p errors,
    )

all_sent :
    (p q : Provider) (t : EventType)
    → q.buffers t ≡ []
    → q.queue ≡ []
    → total t q ≡ total t p
    → delivered t q.sent ≡ total t p
all_sent p q t b e same =
    sym (
      ap (λ l. (delivered t q.sent ++ l) ++ queued t q.queue) b
      ∙ ap (λ l. (delivered t q.sent ++ []) ++ queued t l) e
      ∙ append-nil (delivered t q.sent ++ [])
      ∙ append-nil (delivered t q.sent))
    ∙ same

-- When `Flush` returns without having given up, the queue is empty, and all errors, logs and transactions that
-- were sent, buffered or queued before have been given to the transport, in order, provided the provider is
-- in a state that its operations keep and no other goroutine is in the middle of a step.
pub flush_sends_all :
    (p : Provider)
    → Healthy p
    → ((flush p).queue ≡ [])
      × (delivered errors (flush p).sent ≡ total errors p)
      × (delivered logs (flush p).sent ≡ total logs p)
      × (delivered transactions (flush p).sent ≡ total transactions p)
unfolding flush
flush_sends_all p h =
    let settled : Provider = if p.async then drain p p.queue else p in
    let (healthy, empty, same) = settle_lem p h in
    let (no_errors, no_logs, queue) = flush_buffers_empty settled in
    let kept : (t : EventType) → total t (flush_buffers settled) ≡ total t p =
      λ t. total-flush_buffers settled t ∙ same t in
    (
      queue ∙ empty,
      all_sent p (flush_buffers settled) errors no_errors (queue ∙ empty) (kept errors),
      all_sent p (flush_buffers settled) logs no_logs (queue ∙ empty) (kept logs),
      all_sent p (flush_buffers settled) transactions
          ((flush_buffers-Healthy settled healthy).inv.single_shot) (queue ∙ empty)
          (kept transactions),
    )
