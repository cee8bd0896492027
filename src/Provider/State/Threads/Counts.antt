-- ===== src/Provider/State/Threads/Counts.antt =====
-- providers/duckbug/provider.go at the grain of its lock: how many payloads a step leaves where.
use duckbug_go.Base.{
  ℕ, zero, suc, ◌+◌, ◌==◌, leb, Bool, true, false, List, [], ◌∷◌, ◌++◌, append-nil, length,
  if◌then◌else◌, ◌≡◌, refl, ◌∙◌, inl, inr, Bool-cases, arith,
}
use duckbug_go.Value.{Fields}
use duckbug_go.Core.Types.{EventType, same_type}
use duckbug_go.Provider.State.{Provider, set_buffer, deliver, is_direct}
use duckbug_go.Provider.State.Order.{
  delivered, delivered-append, only, sent_now, deliver_fields, same_type_eq,
}
use duckbug_go.Provider.State.Bounds.{deliver_queue}
use duckbug_go.Provider.State.Run.{queued}
use duckbug_go.Provider.State.Threads.{
  Task, stores, flushes, sends, completes, waits, request_for, execute, Threads, continue,
  continue_caller,
}

module _ (f : Fields → Bool) (t : EventType) where
  -- How many payloads pass a test.
  abbrev pub count : List Fields → ℕ
  count [] = 0
  count (x ∷ xs) = let rest = count xs in if f x then suc rest else rest

  -- What a task has in its hands.
  abbrev held : Task → List Fields
  held (stores t' x) = only t' t (x ∷ [])
  held (flushes t') = []
  held (sends t' batch items) = only t' t items
  held completes = []
  held waits = []

  abbrev pub count_tasks : List Task → ℕ
  count_tasks [] = 0
  count_tasks (k ∷ ks) = count (held k) + count_tasks ks

  abbrev pub count_callers : List (List Task) → ℕ
  count_callers [] = 0
  count_callers (c ∷ cs) = count_tasks c + count_callers cs

  -- The payloads of a provider that were sent, are buffered, or wait in the queue.
  abbrev pub count_provider : Provider → ℕ
  count_provider p = count (delivered t p.sent) + count (p.buffers t) + count (queued t p.queue)

  -- All of them, with those in the hands of the worker and of the callers.
  abbrev pub count_all : Threads → ℕ
  count_all s = count_provider s.shared + count_tasks s.worker + count_callers s.callers

  pub count-append : (xs ys : List Fields) → count (xs ++ ys) ≡ count xs + count ys
  count-append [] ys = omega arith
  count-append (x ∷ xs) ys = ground (arith, count-append xs ys)

  count_tasks-append :
      (xs ys : List Task) → count_tasks (xs ++ ys) ≡ count_tasks xs + count_tasks ys
  count_tasks-append [] ys = omega arith
  count_tasks-append (x ∷ xs) ys = omega (arith, count_tasks-append xs ys)

  pub count_callers-append :
      (xs ys : List (List Task)) → count_callers (xs ++ ys) ≡ count_callers xs + count_callers ys
  count_callers-append [] ys = omega arith
  count_callers-append (x ∷ xs) ys = omega (arith, count_callers-append xs ys)

  count_tasks-request_for :
      (t' : EventType) (items : List Fields)
      → count_tasks (request_for t' items) ≡ count (only t' t items)
  count_tasks-request_for t' [] = elim (Bool-cases (same_type t' t)) [ inl e ↦ rw e | inr e ↦ rw e ]
  count_tasks-request_for t' (x ∷ []) = omega arith
  count_tasks-request_for t' (x ∷ y ∷ items) = omega arith

  count-delivered :
      (p : Provider) (t' : EventType) (batch : Bool) (items : List Fields)
      → count (delivered t (deliver p t' batch items).sent)
        ≡ count (delivered t p.sent) + count (only t' t items)
  count-delivered p t' batch items =
      let fields = deliver_fields p t' batch items in
      rw (fields.0, delivered-append t p.sent (sent_now p t' batch items ∷ []))
        (count-append (delivered t p.sent) _ ∙ elim (Bool-cases (same_type t' t)) [
          | inl e ↦ rw (e, append-nil items) refl
          | inr e ↦ rw e refl
        ])

  count-stored :
      (p : Provider) (t' : EventType) (items : List Fields)
      → count (set_buffer t' (p.buffers t' ++ items) p.buffers t)
        ≡ count (p.buffers t) + count (only t' t items)
  count-stored p t' items = elim (Bool-cases (same_type t' t)) [
    | inl e ↦ let same = same_type_eq t' t e in rw (e, same) (count-append (p.buffers t) items)
    | inr e ↦ rw e (omega arith)
  ]

  count-flushed :
      (p : Provider) (t' : EventType)
      → count (set_buffer t' [] p.buffers t) + count (only t' t (p.buffers t'))
        ≡ count (p.buffers t)
  count-flushed p t' = elim (Bool-cases (same_type t' t)) [
    | inl e ↦ let same = same_type_eq t' t e in rw (e, same) (omega arith)
    | inr e ↦ rw e (omega arith)
  ]

  -- Tasks that hold nothing.
  count-either :
      (b : Bool) (k : Task) → count (held k) ≡ 0 → count_tasks (if b then k ∷ [] else []) ≡ 0
  count-either true k h = omega (arith, h)
  count-either false k h = refl

  count-neither :
      (b : Bool) (k : Task) → count (held k) ≡ 0 → count_tasks (if b then [] else k ∷ []) ≡ 0
  count-neither true k h = refl
  count-neither false k h = omega (arith, h)

  -- Executing a task keeps every payload.
  count-execute :
      (k : Task) (p : Provider)
      → count_provider (execute k p).0 + count_tasks (execute k p).1
        ≡ count_provider p + count (held k)
  unfolding execute
  count-execute (stores t' x) p = elim (Bool-cases (is_direct p t')) [
    | inl d ↦ rw d (omega arith)
    | inr d ↦ rw d (
        let stored = count-stored p t' (x ∷ []) in
        let idle =
          count-either (leb p.batch_size (length (p.buffers t' ++ x ∷ []))) (flushes t') refl in
        omega (arith, stored, idle))
  ]
  count-execute (flushes t') p =
      omega (arith, count-flushed p t', count_tasks-request_for t' (p.buffers t'))
  count-execute (sends t' batch items) p =
      let fields = deliver_fields p t' batch items in
      rw (count-delivered p t' batch items, fields.1, deliver_queue p t' batch items) (omega arith)
  count-execute completes p = omega arith
  count-execute waits p = omega (arith, count-neither (p.pending == 0) waits refl)

  pub count-continue :
      (p : Provider) (ks : List Task)
      → count_provider (continue p ks).0 + count_tasks (continue p ks).1
        ≡ count_provider p + count_tasks ks
  unfolding continue
  count-continue p [] = refl
  count-continue p (k ∷ ks) =
      omega (arith, count_tasks-append (execute k p).1 ks, count-execute k p)

  pub count-continue_caller :
      (n : ℕ) (p : Provider) (cs : List (List Task))
      → count_provider (continue_caller n p cs).0 + count_callers (continue_caller n p cs).1
        ≡ count_provider p + count_callers cs
  unfolding continue_caller
  count-continue_caller n p [] = refl
  count-continue_caller zero p (c ∷ cs) = omega (arith, count-continue p c)
  count-continue_caller (suc n) p (c ∷ cs) = omega (arith, count-continue_caller n p cs)
