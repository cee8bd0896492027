-- ===== src/Provider/State/Threads.antt =====
-- providers/duckbug/provider.go at the grain of its lock. A goroutine gives the lock back before it calls the
-- transport, so that others run between the two: what it has taken out of the buffers is then in its hands
-- alone. `enqueue` is one step, as the channel makes it.
pub mod Counts
pub mod Kept
pub mod Alone
use duckbug_go.Base.{
  ℕ, zero, suc, ◌+◌, ◌-◌, ◌==◌, leb, Bool, true, false, String, Option, none, some, List, [], ◌∷◌,
  ◌++◌, length, if◌then◌else◌,
}
use duckbug_go.Value.{Fields}
use duckbug_go.Core.Types.{EventType, errors, logs, Event}
use duckbug_go.Provider.State.{Provider, set_buffer, deliver, is_direct, prepared, enqueue}

-- What a goroutine still has to do.
pub data Task : Type 0 where
  stores : EventType → Fields → Task
  flushes : EventType → Task
  sends : EventType → Bool → List Fields → Task
  completes : Task
  waits : Task

-- `Send` for one payload, `SendBatch` for more.
abbrev pub request_for : EventType → List Fields → List Task
request_for t [] = []
request_for t (x ∷ []) = sends t false (x ∷ []) ∷ []
request_for t (x ∷ y ∷ items) = sends t true (x ∷ y ∷ items) ∷ []

-- A task up to the lock that it gives back or the request that it ends with, and what is then left of it.
unfoldable pub execute : Task → Provider → Provider × List Task
execute (stores t x) p =
    if is_direct p t
    then (p, sends t false (x ∷ []) ∷ [])
    else (let items = p.buffers t ++ x ∷ [] in
        (
          record p { buffers = set_buffer t items p.buffers },
          if leb p.batch_size (length items) then flushes t ∷ [] else [],
        ))
execute (flushes t) p =
    (record p { buffers = set_buffer t [] p.buffers }, request_for t (p.buffers t))
execute (sends t batch items) p = (deliver p t batch items, [])
execute completes p = (record p { pending = p.pending - 1 }, [])
execute waits p = (p, if p.pending == 0 then [] else waits ∷ [])

-- The provider, its worker, and the goroutines that called it.
pub record Threads : Type 0 where
  pub shared : Provider
  pub worker : List Task
  pub callers : List (List Task)

-- What happens next: an event is captured, `Flush` is called, the worker takes an item or a tick or goes on with
-- what it does, or a caller goes on.
pub data Turn : Type 0 where
  captures : String → Event → Turn
  calls_flush receives ticks works : Turn
  goes_on : ℕ → Turn

-- One step of a goroutine.
unfoldable pub continue : Provider → List Task → Provider × List Task
unfolding execute
continue p [] = (p, [])
continue p (k ∷ ks) = let (p', more) = execute k p in (p', more ++ ks)

unfoldable pub continue_caller : ℕ → Provider → List (List Task) → Provider × List (List Task)
unfolding continue
continue_caller n p [] = (p, [])
continue_caller zero p (c ∷ cs) = let (p', c') = continue p c in (p', c' ∷ cs)
continue_caller (suc n) p (c ∷ cs) = let (p', cs') = continue_caller n p cs in (p', c ∷ cs')

abbrev pub admit : Threads → EventType → Option Fields → Threads
admit s t none = s
admit s t (some x) =
    if s.shared.async
    then record s { shared = enqueue s.shared t x }
    else record s { callers = s.callers ++ (stores t x ∷ []) ∷ [] }

abbrev pub flush_tasks : List Task
flush_tasks = flushes errors ∷ flushes logs ∷ []

-- The worker takes an item when it has nothing else to do.
abbrev pub take_item : Threads → List Task → List (EventType × Fields) → Threads
take_item s (k ∷ ks) q = s
take_item s [] [] = s
take_item s [] ((t, x) ∷ rest) = record s {
  shared = record s.shared { queue = rest };
  worker = stores t x ∷ completes ∷ [];
}

abbrev pub take_tick : Threads → List Task → Threads
take_tick s (k ∷ ks) = s
take_tick s [] = record s { worker = flush_tasks }

unfoldable pub advance : Threads → Turn → Threads
unfolding continue continue_caller
advance s (captures minted e) = admit s e.type (prepared s.shared minted e)
advance s calls_flush = record s {
  callers = s.callers ++ (if s.shared.async then waits ∷ flush_tasks else flush_tasks) ∷ [];
}
advance s receives = take_item s s.worker s.shared.queue
advance s ticks = take_tick s s.worker
advance s works = let (p, ks) = continue s.shared s.worker in record s { shared = p; worker = ks }
advance s (goes_on n) =
    let (p, cs) = continue_caller n s.shared s.callers in record s { shared = p; callers = cs }

unfoldable pub advance_all : Threads → List Turn → Threads
unfolding advance
advance_all s [] = s
advance_all s (turn ∷ turns) = advance_all (advance s turn) turns
