-- ===== src/Provider/State/Run/Room.antt =====
-- providers/duckbug/provider.go: a queue that is large enough is never full.
use duckbug_go.Base.{
  ℕ, suc, ◌+◌, ◌≤◌, ltb, Bool, true, false, Option, none, some, List, [], ◌∷◌, length,
  length-append, ◌≡◌, refl, ap, ◌∙◌, sym, inl, inr, Bool-cases, if◌then◌else◌, arith,
}
use duckbug_go.Value.{Fields}
use duckbug_go.Core.Types.{EventType, errors, logs}
use duckbug_go.Provider.State.{
  Provider, prepared, accept, enqueue, capture_prepared, capture_event, flush_type, flush_buffers,
}
use duckbug_go.Provider.State.Bounds.{flush_type_queue, capture_prepared_rest}
use duckbug_go.Provider.State.Run.{Op, capture, take, tick, take_first, step, is_full}
use duckbug_go.Provider.State.Run.History.{dropped_fields}
use duckbug_go.Provider.State.Run.Flush.{receive_queue}

-- How many events the operations capture.
abbrev pub captured : List Op → ℕ
captured [] = 0
captured (capture minted e ∷ ops) = suc (captured ops)
captured (take ∷ ops) = captured ops
captured (tick ∷ ops) = captured ops

-- The queue has room for all the events that are still to be captured.
abbrev pub HasRoom : Provider → List Op → Type 0
HasRoom p ops = p.async ≡ true → length p.queue + captured ops ≤ p.queue_size

length-enqueue :
    (p : Provider) (t : EventType) (x : Fields) → length (enqueue p t x).queue ≤ length p.queue + 1
unfolding enqueue
length-enqueue p t x = elim (Bool-cases (ltb (length p.queue) p.queue_size)) [
  | inl e ↦ rw e (omega (arith, length-append p.queue ((t, x) ∷ [])))
  | inr e ↦ rw (e, (dropped_fields p t x).2) (omega arith)
]

length_either :
    (b : Bool) (p q : Provider) (n : ℕ)
    → length p.queue ≤ n
    → length q.queue ≤ n
    → length (if b then p else q).queue ≤ n
length_either true p q n h i = h
length_either false p q n h i = i

length-accept :
    (p : Provider) (t : EventType) (o : Option Fields)
    → length (accept p t o).queue ≤ length p.queue + 1
length-accept p t none = omega arith
length-accept p t (some x) =
    length_either p.async (enqueue p t x) (capture_prepared p t x) _ (length-enqueue p t x)
      (rw ((capture_prepared_rest p t x).0) (omega arith))

length-take_first :
    (p : Provider) (q : List (EventType × Fields))
    → p.queue ≡ q
    → length (take_first p q).queue ≤ length p.queue
unfolding take_first
length-take_first p [] e = omega arith
length-take_first p (item ∷ rest) e = rw (receive_queue p item rest, e) (omega arith)

length-step :
    (p : Provider) (op : Op) (ops : List Op)
    → length (step p op).queue + captured ops ≤ length p.queue + captured (op ∷ ops)
unfolding step capture_event flush_buffers
length-step p (capture minted e) ops = omega (arith, length-accept p e.type (prepared p minted e))
length-step p take ops = omega (arith, length-take_first p p.queue refl)
length-step p tick ops =
    rw (flush_type_queue (flush_type p errors) logs, flush_type_queue p errors) (omega arith)

-- Room for all that is to come is left by each operation.
pub step-HasRoom :
    (p : Provider) (op : Op) (ops : List Op)
    → (step p op).settings ≡ p.settings
    → HasRoom p (op ∷ ops)
    → HasRoom (step p op) ops
step-HasRoom p op ops same h a =
    let room = h (ap (λ s. s.async) (sym same) ∙ a) in
    let size : (step p op).queue_size ≡ p.queue_size = ap (λ s. s.queue_size) same in
    rw size (omega (arith, room, length-step p op ops))

-- A queue that has room for a capture is not full.
pub is_full-HasRoom :
    (p : Provider) (op : Op) (ops : List Op)
    → suc (captured ops) ≤ captured (op ∷ ops)
    → HasRoom p (op ∷ ops)
    → is_full p ≡ false
is_full-HasRoom p op ops n h = elim (Bool-cases p.async) [
  | inl a ↦ let room = h a in rw a (ground arith)
  | inr a ↦ rw a
]
