-- ===== src/Provider/State/Threads/Alone.antt =====
-- providers/duckbug/provider.go at the grain of its lock: a goroutine that no other one interrupts.
use duckbug_go.Base.{leb, List, [], ◌∷◌, ◌++◌, length, inl, inr, Bool-cases}
use duckbug_go.Value.{Fields}
use duckbug_go.Core.Types.{EventType, errors, logs}
use duckbug_go.Provider.State.{
  Provider, set_buffer, send_items, flush_type, flush_buffers, is_direct, capture_prepared, receive,
}
use duckbug_go.Provider.State.Threads.{
  Task, stores, flushes, completes, request_for, execute, continue, flush_tasks,
}

-- The tasks of a goroutine, one after the other, lead from one state of the provider to another.
pub data Runs : Provider → List Task → Provider → Type 0 where
  ends : {p : Provider} → Runs p [] p
  goes :
      {p q : Provider} (k : Task) (ks : List Task)
      → Runs (continue p (k ∷ ks)).0 (continue p (k ∷ ks)).1 q
      → Runs p (k ∷ ks) q

sends-Runs :
    {q : Provider} (p : Provider) (t : EventType) (items : List Fields) (ks : List Task)
    → Runs (send_items p t items) ks q
    → Runs p (request_for t items ++ ks) q
unfolding continue execute
sends-Runs p t [] ks h = h
sends-Runs p t (x ∷ []) ks h = goes _ ks h
sends-Runs p t (x ∷ y ∷ items) ks h = goes _ ks h

flushes-Runs :
    {q : Provider} (p : Provider) (t : EventType) (ks : List Task)
    → Runs (flush_type p t) ks q
    → Runs p (flushes t ∷ ks) q
unfolding continue execute flush_type
flushes-Runs p t ks h = goes _ ks (sends-Runs _ t (p.buffers t) ks h)

stores-Runs :
    {q : Provider} (p : Provider) (t : EventType) (x : Fields) (ks : List Task)
    → Runs (capture_prepared p t x) ks q
    → Runs p (stores t x ∷ ks) q
unfolding continue execute capture_prepared
stores-Runs {q} p t x ks h = goes _ ks (elim (Bool-cases (is_direct p t)) [
  | inl d ↦ rw d (goes _ ks (rw d at h))
  | inr d ↦
      let items = p.buffers t ++ x ∷ [] in
      let buffered : Provider = record p { buffers = set_buffer t items p.buffers } in
      rw d (elim (Bool-cases (leb p.batch_size (length items))) [
        | inl f ↦ rw f (flushes-Runs buffered t ks (rw (d, f) at h))
        | inr f ↦ rw f (rw (d, f) at h)
      ])
])

-- What the worker does with an item is a whole step of `receive`, and what it does with a tick and a caller of
-- `Flush` does after its wait is a whole step of `flush_buffers`, when no other goroutine interrupts it; what a
-- caller of a synchronous provider does is a whole step of `capture_prepared`.
pub receive-Runs :
    (p : Provider) (t : EventType) (x : Fields) (rest : List (EventType × Fields))
    → Runs (record p { queue = rest }) (stores t x ∷ completes ∷ []) (receive p (t, x) rest)
      × Runs p flush_tasks (flush_buffers p)
      × Runs p (stores t x ∷ []) (capture_prepared p t x)
unfolding continue execute receive flush_buffers
receive-Runs p t x rest = (
  stores-Runs (record p { queue = rest }) t x (completes ∷ []) (goes completes [] ends),
  flushes-Runs p errors (flushes logs ∷ []) (flushes-Runs (flush_type p errors) logs [] ends),
  stores-Runs p t x [] ends,
)
