-- ===== src/Provider/State/Run.antt =====
-- The provider over whole histories. Callers capture events, the worker of an asynchronous provider takes
-- queued items and its ticker flushes, in any order.
pub mod Flow
pub mod History
pub mod Flush
pub mod Reports
pub mod Room
use duckbug_go.Base.{
  ℕ, ltb, Bool, true, false, String, Option, none, some, List, [], ◌∷◌, ◌++◌, length, if◌then◌else◌,
}
use duckbug_go.Value.{Fields}
use duckbug_go.Core.Types.{EventType, Event}
use duckbug_go.Provider.State.{Provider, prepared, capture_event, receive, flush_buffers}
use duckbug_go.Provider.State.Order.{flow, only}

-- `take` is a turn of the worker that finds an item, if there is one; `tick` is a turn of its ticker, or the
-- last part of a `Flush`.
pub data Op : Type 0 where
  capture : String → Event → Op
  take : Op
  tick : Op

unfoldable pub take_first : Provider → List (EventType × Fields) → Provider
take_first p [] = p
take_first p (item ∷ rest) = receive p item rest

unfoldable pub step : Provider → Op → Provider
unfolding take_first
step p (capture minted e) = capture_event p minted e
step p take = take_first p p.queue
step p tick = flush_buffers p

unfoldable pub run : Provider → List Op → Provider
run p [] = p
run p (op ∷ ops) = run (step p op) ops

-- The queued payloads of a type, in order.
abbrev pub queued : EventType → List (EventType × Fields) → List Fields
queued t [] = []
queued t ((t', x) ∷ items) = only t' t (x ∷ []) ++ queued t items

-- All that was sent, is buffered, or waits in the queue.
abbrev pub total : EventType → Provider → List Fields
total t p = flow t p ++ queued t p.queue

abbrev pub to_list : Option Fields → List Fields
to_list none = []
to_list (some x) = x ∷ []

-- Whether the queue has no room.
abbrev pub is_full : Provider → Bool
is_full p = if p.async then (if ltb (length p.queue) p.queue_size then false else true) else false

-- What an operation takes in: the prepared payload of a captured event, unless the queue is full.
abbrev pub taken_in : EventType → Provider → Op → List Fields
taken_in t p (capture minted e) =
    if is_full p then [] else only e.type t (to_list (prepared p minted e))
taken_in t p take = []
taken_in t p tick = []

unfoldable pub history : EventType → Provider → List Op → List Fields
history t p [] = []
history t p (op ∷ ops) = taken_in t p op ++ history t (step p op) ops
