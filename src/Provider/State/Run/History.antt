-- ===== src/Provider/State/Run/History.antt =====
-- providers/duckbug/provider.go: what a provider takes in, sends, buffers and queues over a history.
use duckbug_go.Base.{
  ◌<◌, ◌+◌, ◌%◌, ◌^◌, ltb, Bool, true, false, Option, none, some, List, [], ◌∷◌, ◌++◌, append-nil,
  append_assoc, length, ◌≡◌, refl, ap, ◌∙◌, sym, Bool-cases, inl, inr, if◌then◌else◌,
}
use duckbug_go.Value.{Fields}
use duckbug_go.Core.Types.{EventType, FailureInfo, same_type}
use duckbug_go.Provider.Config.{Settings}
use duckbug_go.Provider.State.{
  Provider, Transport, new_provider, prepared, capture_event, accept, enqueue, handle_dropped_event,
  capture_prepared, report,
}
use duckbug_go.Provider.State.Order.{delivered, flow, only, flow-capture_prepared}
use duckbug_go.Provider.State.Bounds.{inv_of, capture_prepared_rest}
use duckbug_go.Provider.State.Run.{
  Op, capture, take, tick, take_first, step, run, queued, total, to_list, is_full, taken_in,
  history,
}
use duckbug_go.Provider.State.Run.Flow.{
  Healthy, Healthy-of, queued-append, flush_buffers-Healthy, capture_prepared-Healthy,
  receive-Healthy, total-receive, total-flush_buffers,
}

report_fields :
    (p : Provider) (info : FailureInfo)
    → ((report p info).sent ≡ p.sent)
      × ((report p info).buffers ≡ p.buffers)
      × ((report p info).queue ≡ p.queue)
      × ((report p info).settings ≡ p.settings)
unfolding report
report_fields p info = elim (Bool-cases p.has_failure_handler) [
  | inl e ↦ rw e (refl, refl, refl, refl)
  | inr e ↦ rw e (refl, refl, refl, refl)
]

-- A dropped event changes neither what is sent or kept nor the settings.
pub dropped_fields :
    (p : Provider) (t : EventType) (x : Fields)
    → ((handle_dropped_event p t x).sent ≡ p.sent)
      × ((handle_dropped_event p t x).buffers ≡ p.buffers)
      × ((handle_dropped_event p t x).queue ≡ p.queue)
      × ((handle_dropped_event p t x).settings ≡ p.settings)
unfolding handle_dropped_event
dropped_fields p t x = report_fields (record p { dropped = (p.dropped + 1) % 2 ^ 64 }) _

enqueue-Healthy :
    (p : Provider) (t : EventType) (x : Fields)
    → p.async ≡ true
    → Healthy p
    → Healthy (enqueue p t x)
unfolding enqueue
enqueue-Healthy p t x a h = elim (Bool-cases (ltb (length p.queue) p.queue_size)) [
  | inl r ↦ rw r (record {
    inv = record { below = h.inv.below; single_shot = h.inv.single_shot };
    sized = h.sized;
    unqueued = λ sync. cc;
  })
  | inr r ↦
      let (s, b, q, c) = dropped_fields p t x in
      rw r (
        Healthy-of p (handle_dropped_event p t x) h
          (inv_of p _ c (rw b (h.inv.below, h.inv.single_shot))) (rw s h.sized) (q, c))
]

pub total-enqueue :
    (p : Provider) (t t' : EventType) (x : Fields)
    → total t' (enqueue p t x)
      ≡ total t' p
        ++ (if (if ltb (length p.queue) p.queue_size then false else true)
            then []
            else only t t' (x ∷ []))
unfolding enqueue
total-enqueue p t t' x = elim (Bool-cases (ltb (length p.queue) p.queue_size)) [
  | inl r ↦ rw r (
      ap (λ l. flow t' p ++ l)
        (queued-append t' p.queue ((t, x) ∷ [])
          ∙ ap (λ l. queued t' p.queue ++ l) (append-nil (only t t' (x ∷ []))))
      ∙ sym (append_assoc (flow t' p) (queued t' p.queue) (only t t' (x ∷ []))))
  | inr r ↦
      let (s, b, q, c) = dropped_fields p t x in rw (r, s, b, q) (sym (append-nil (total t' p)))
]

total-capture_prepared :
    (p : Provider) (t t' : EventType) (x : Fields)
    → p.queue ≡ []
    → Healthy p
    → total t' (capture_prepared p t x) ≡ total t' p ++ only t t' (x ∷ [])
total-capture_prepared p t t' x empty h =
    ap (λ q. flow t' (capture_prepared p t x) ++ queued t' q)
      ((capture_prepared_rest p t x).0 ∙ empty)
    ∙ append-nil (flow t' (capture_prepared p t x))
    ∙ flow-capture_prepared p t x t' h.inv
    ∙ ap (λ l. l ++ only t t' (x ∷ []))
        (sym (ap (λ q. flow t' p ++ queued t' q) empty ∙ append-nil (flow t' p)))

pub only-nil : (t t' : EventType) → only t t' [] ≡ []
only-nil t t' = elim (Bool-cases (same_type t t')) [ inl e ↦ rw e | inr e ↦ rw e ]

accept-Healthy :
    (p : Provider) (t : EventType) (o : Option Fields) → Healthy p → Healthy (accept p t o)
accept-Healthy p t none h = h
accept-Healthy p t (some x) h = either p.async refl
  where
    either :
        (b : Bool) → p.async ≡ b → Healthy (if b then enqueue p t x else capture_prepared p t x)
    either true a = enqueue-Healthy p t x a h
    either false a = capture_prepared-Healthy p t x h

total-accept :
    (p : Provider) (t t' : EventType) (o : Option Fields)
    → Healthy p
    → total t' (accept p t o) ≡ total t' p ++ (if is_full p then [] else only t t' (to_list o))
total-accept p t t' none h = elim (Bool-cases (is_full p)) [
  | inl f ↦ rw f (sym (append-nil (total t' p)))
  | inr f ↦ rw (f, only-nil t t') (sym (append-nil (total t' p)))
]
total-accept p t t' (some x) h = either p.async refl
  where
    either :
        (b : Bool)
        → p.async ≡ b
        → total t' (if b then enqueue p t x else capture_prepared p t x)
          ≡ total t' p
            ++ (if (if b
                  then (if ltb (length p.queue) p.queue_size then false else true)
                  else false)
                then []
                else only t t' (x ∷ []))
    either true a = total-enqueue p t t' x
    either false a = total-capture_prepared p t t' x (h.unqueued a) h

take_first-Healthy :
    (p : Provider) (q : List (EventType × Fields))
    → p.queue ≡ q
    → Healthy p
    → Healthy (take_first p q)
unfolding take_first
take_first-Healthy p [] e h = h
take_first-Healthy p (item ∷ rest) e h = receive-Healthy p item rest e h

total-take_first :
    (p : Provider) (q : List (EventType × Fields)) (t : EventType)
    → p.queue ≡ q
    → Healthy p
    → total t (take_first p q) ≡ total t p
unfolding take_first
total-take_first p [] t e h = refl
total-take_first p (item ∷ rest) t e h = total-receive p item rest t e h

-- Every operation keeps the buffers below a batch, the requests within a batch, and the queue of a
-- synchronous provider empty.
pub step-Healthy : (p : Provider) (op : Op) → Healthy p → Healthy (step p op)
unfolding step capture_event
step-Healthy p (capture minted e) h = accept-Healthy p e.type (prepared p minted e) h
step-Healthy p take h = take_first-Healthy p p.queue refl h
step-Healthy p tick h = flush_buffers-Healthy p h

total-step :
    (p : Provider) (op : Op) (t : EventType)
    → Healthy p
    → total t (step p op) ≡ total t p ++ taken_in t p op
unfolding step capture_event
total-step p (capture minted e) t h = total-accept p e.type t (prepared p minted e) h
total-step p take t h = total-take_first p p.queue t refl h ∙ sym (append-nil (total t p))
total-step p tick t h = total-flush_buffers p t ∙ sym (append-nil (total t p))

pub run-Healthy : (p : Provider) (ops : List Op) → Healthy p → Healthy (run p ops)
unfolding run
run-Healthy p [] h = h
run-Healthy p (op ∷ ops) h = run-Healthy (step p op) ops (step-Healthy p op h)

pub total-run :
    (p : Provider) (ops : List Op) (t : EventType)
    → Healthy p
    → total t (run p ops) ≡ total t p ++ history t p ops
unfolding run history
total-run p [] t h = sym (append-nil (total t p))
total-run p (op ∷ ops) t h =
    total-run (step p op) ops t (step-Healthy p op h)
    ∙ ap (λ l. l ++ history t (step p op) ops) (total-step p op t h)
    ∙ append_assoc (total t p) (taken_in t p op) (history t (step p op) ops)

pub new_provider-Healthy :
    (s : Settings) (f : Transport) → 0 < s.batch_size → Healthy (new_provider s f)
unfolding new_provider
new_provider-Healthy s f n = record {
  inv = record { below = λ t. n; single_shot = refl };
  sized = tt;
  unqueued = λ a. refl;
}

-- After any interleaving of captures, worker turns and ticks, from a new provider with a batch size of at
-- least one, the payloads of a type that the transport was given, then those that are buffered, then those
-- that are queued, are in order exactly the prepared payloads of the captured events of that type, those
-- left out that met a full queue.
pub history-run :
    (s : Settings) (f : Transport) (ops : List Op) (t : EventType)
    → 0 < s.batch_size
    → (delivered t (run (new_provider s f) ops).sent ++ (run (new_provider s f) ops).buffers t)
        ++ queued t (run (new_provider s f) ops).queue
      ≡ history t (new_provider s f) ops
unfolding new_provider
history-run s f ops t n = total-run (new_provider s f) ops t (new_provider-Healthy s f n)

-- After any interleaving, from a new provider with a batch size of at least one, every request carried from
-- one payload to a batch and took the batch route exactly if it carried more than one; fewer payloads than
-- a batch are buffered of each type, and no transaction ever is.
pub run-bounded :
    (s : Settings) (f : Transport) (ops : List Op)
    → 0 < s.batch_size
    → Healthy (run (new_provider s f) ops)
run-bounded s f ops n = run-Healthy (new_provider s f) ops (new_provider-Healthy s f n)
