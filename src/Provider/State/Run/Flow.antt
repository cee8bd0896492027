-- ===== src/Provider/State/Run/Flow.antt =====
-- providers/duckbug/provider.go: single steps, and what is sent, buffered or queued.
use duckbug_go.Base.{false, List, [], ◌∷◌, ◌++◌, append_assoc, ◌≡◌, refl, ap, ◌∙◌, sym, arith, All}
use duckbug_go.Value.{Fields}
use duckbug_go.Core.Types.{EventType, errors, logs}
use duckbug_go.Provider.State.{Provider, receive, flush_buffers, flush_type, capture_prepared}
use duckbug_go.Provider.State.Order.{Inv, flow, only, flow-flush_type, flow-capture_prepared}
use duckbug_go.Provider.State.Bounds.{
  IsSized, flush_type-Inv, capture_prepared-Inv, flush_type-IsSized, capture_prepared-IsSized,
  flush_type_fields, flush_type_queue, capture_prepared_rest,
}
use duckbug_go.Provider.State.Run.{queued, total}

-- What holds between two operations.
pub record Healthy (p : Provider) : Type 0 where
  pub inv : Inv p
  pub sized : All (IsSized p.batch_size) p.sent
  pub unqueued : p.async ≡ false → p.queue ≡ []

pub queued-append :
    (t : EventType) (xs ys : List (EventType × Fields))
    → queued t (xs ++ ys) ≡ queued t xs ++ queued t ys
queued-append t [] ys = refl
queued-append t ((t', x) ∷ xs) ys =
    ap (λ l. only t' t (x ∷ []) ++ l) (queued-append t xs ys)
    ∙ sym (append_assoc (only t' t (x ∷ [])) (queued t xs) (queued t ys))

IsSized-at :
    (p q : Provider)
    → q.settings ≡ p.settings
    → All (IsSized p.batch_size) q.sent
    → All (IsSized q.batch_size) q.sent
IsSized-at p q s h = let e : q.batch_size ≡ p.batch_size = ap (λ x. x.batch_size) s in rw e h

-- Healthy, when the queue and the settings are as they were.
pub Healthy-of :
    (p q : Provider)
    → Healthy p
    → Inv q
    → All (IsSized p.batch_size) q.sent
    → (q.queue ≡ p.queue) × (q.settings ≡ p.settings)
    → Healthy q
Healthy-of p q h i s e = record {
  inv = i;
  sized = IsSized-at p q e.1 s;
  unqueued = λ sync. e.0 ∙ h.unqueued (ap (λ x. x.async) (sym e.1) ∙ sync);
}

flush_type-Healthy : (p : Provider) (t : EventType) → Healthy p → Healthy (flush_type p t)
flush_type-Healthy p t h =
    Healthy-of p (flush_type p t) h (flush_type-Inv p t h.inv)
      (flush_type-IsSized p t p.batch_size (omega (arith, h.inv.below t)) h.sized)
      (flush_type_queue p t, (flush_type_fields p t).1)

pub flush_buffers-Healthy : (p : Provider) → Healthy p → Healthy (flush_buffers p)
unfolding flush_buffers
flush_buffers-Healthy p h =
    flush_type-Healthy (flush_type p errors) logs (flush_type-Healthy p errors h)

pub capture_prepared-Healthy :
    (p : Provider) (t : EventType) (q : Fields) → Healthy p → Healthy (capture_prepared p t q)
capture_prepared-Healthy p t q h =
    Healthy-of p (capture_prepared p t q) h (capture_prepared-Inv p t q h.inv)
      (capture_prepared-IsSized p t q h.inv h.sized) (capture_prepared_rest p t q)

-- Without its first item, the queue of an asynchronous provider.
popped : (p : Provider) → List (EventType × Fields) → Provider
popped p rest = record p { queue = rest }

popped-Healthy :
    (p : Provider) (item : EventType × Fields) (rest : List (EventType × Fields))
    → p.queue ≡ item ∷ rest
    → Healthy p
    → Healthy (popped p rest)
unfolding popped
popped-Healthy p item rest e h = record {
  inv = record { below = h.inv.below; single_shot = h.inv.single_shot };
  sized = h.sized;
  unqueued = λ sync. cc (h.unqueued sync);
}

pub receive-Healthy :
    (p : Provider) (item : EventType × Fields) (rest : List (EventType × Fields))
    → p.queue ≡ item ∷ rest
    → Healthy p
    → Healthy (receive p item rest)
unfolding receive popped
receive-Healthy p (t, x) rest e h =
    let next = capture_prepared-Healthy (popped p rest) t x (popped-Healthy p (t, x) rest e h) in
    record {
      inv = record { below = next.inv.below; single_shot = next.inv.single_shot };
      sized = next.sized;
      unqueued = next.unqueued;
    }

-- A turn of the worker moves the first queued payload on.
pub total-receive :
    (p : Provider) (item : EventType × Fields) (rest : List (EventType × Fields)) (t : EventType)
    → p.queue ≡ item ∷ rest
    → Healthy p
    → total t (receive p item rest) ≡ total t p
unfolding receive popped
total-receive p (t', x) rest t e h =
    let next = capture_prepared (popped p rest) t' x in
    ap (λ q. flow t next ++ queued t q) (capture_prepared_rest (popped p rest) t' x).0
    ∙ ap (λ l. l ++ queued t rest)
        (flow-capture_prepared (popped p rest) t' x t (popped-Healthy p (t', x) rest e h).inv)
    ∙ append_assoc (flow t p) (only t' t (x ∷ [])) (queued t rest)
    ∙ ap (λ q. flow t p ++ queued t q) (sym e)

total-flush_type : (p : Provider) (s t : EventType) → total t (flush_type p s) ≡ total t p
total-flush_type p s t =
    ap (λ q. flow t (flush_type p s) ++ queued t q) (flush_type_queue p s)
    ∙ ap (λ l. l ++ queued t p.queue) (flow-flush_type p s t)

pub total-flush_buffers : (p : Provider) (t : EventType) → total t (flush_buffers p) ≡ total t p
unfolding flush_buffers
total-flush_buffers p t =
    total-flush_type (flush_type p errors) logs t ∙ total-flush_type p errors t
