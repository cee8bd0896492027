-- ===== src/Provider/State/Threads/Kept.antt =====
-- providers/duckbug/provider.go at the grain of its lock: no payload is lost or sent twice.
use duckbug_go.Base.{
  ℕ, ◌+◌, ltb, Bool, true, false, Option, none, some, List, [], ◌∷◌, ◌++◌, length, if◌then◌else◌,
  ◌≡◌, refl, ap, ◌∙◌, sym, arith,
}
use duckbug_go.Value.{Fields}
use duckbug_go.Core.Types.{EventType}
use duckbug_go.Provider.State.{Provider, prepared, enqueue}
use duckbug_go.Provider.State.Order.{flow, delivered, only}
use duckbug_go.Provider.State.Run.{queued, total, to_list, is_full, taken_in, capture}
use duckbug_go.Provider.State.Run.History.{total-enqueue, only-nil}
use duckbug_go.Provider.State.Threads.Counts.{
  count, count_tasks, count_provider, count_all, count-append, count_callers-append, count-continue,
  count-continue_caller,
}
use duckbug_go.Provider.State.Threads.{
  Task, stores, waits, Threads, Turn, captures, calls_flush, receives, ticks, works, goes_on, admit,
  flush_tasks, take_item, take_tick, advance, advance_all,
}

module _ (f : Fields → Bool) (t : EventType) where
  -- What a turn takes in.
  abbrev pub taken : Threads → Turn → List Fields
  taken s (captures minted e) = taken_in t s.shared (capture minted e)
  taken s _ = []

  abbrev pub taken_all : Threads → List Turn → ℕ
  taken_all s [] = 0
  taken_all s (turn ∷ turns) = count f t (taken s turn) + taken_all (advance s turn) turns

  count-total : (p : Provider) → count f t (total t p) ≡ count_provider f t p
  count-total p = omega (
    arith,
    count-append f t (flow t p) (queued t p.queue),
    count-append f t (delivered t p.sent) (p.buffers t),
  )

  count-enqueue :
      (p : Provider) (t' : EventType) (x : Fields)
      → count_provider f t (enqueue p t' x)
        ≡ count_provider f t p
          + count f t (
              if (if ltb (length p.queue) p.queue_size then false else true)
              then []
              else only t' t (x ∷ []))
  count-enqueue p t' x =
      sym (count-total (enqueue p t' x))
      ∙ ap (count f t) (total-enqueue p t' t x)
      ∙ omega (
        arith,
        count-append f t (total t p) (
            if (if ltb (length p.queue) p.queue_size then false else true)
            then []
            else only t' t (x ∷ [])),
        count-total p,
      )

  nothing : (b : Bool) (t' : EventType) → count f t (if b then [] else only t' t []) ≡ 0
  nothing true t' = refl
  nothing false t' = rw (only-nil t' t) refl

  count-admit :
      (s : Threads) (t' : EventType) (o : Option Fields)
      → count_all f t (admit s t' o)
        ≡ count_all f t s + count f t (if is_full s.shared then [] else only t' t (to_list o))
  count-admit s t' none = omega (arith, nothing (is_full s.shared) t')
  count-admit s t' (some x) = either s.shared.async
    where
      either :
          (b : Bool)
          → count_all f t (
              if b
              then record s { shared = enqueue s.shared t' x }
              else record s { callers = s.callers ++ (stores t' x ∷ []) ∷ [] })
            ≡ count_all f t s
              + count f t (
                  if (if b
                    then (if ltb (length s.shared.queue) s.shared.queue_size then false else true)
                    else false)
                  then []
                  else only t' t (x ∷ []))
      either true = omega (arith, count-enqueue s.shared t' x)
      either false = omega (arith, count_callers-append f t s.callers ((stores t' x ∷ []) ∷ []))

  count-take_item :
      (s : Threads) (w : List Task) (q : List (EventType × Fields))
      → s.worker ≡ w
      → s.shared.queue ≡ q
      → count_all f t (take_item s w q) ≡ count_all f t s
  count-take_item s (k ∷ ks) q e h = refl
  count-take_item s [] [] e h = refl
  count-take_item s [] ((t', x) ∷ rest) e h =
      rw (e, h) (omega (arith, count-append f t (only t' t (x ∷ [])) (queued t rest)))

  count-take_tick :
      (s : Threads) (w : List Task) → s.worker ≡ w → count_all f t (take_tick s w) ≡ count_all f t s
  count-take_tick s (k ∷ ks) e = refl
  count-take_tick s [] e = rw e refl

  count-flush_tasks :
      (b : Bool) → count_tasks f t (if b then waits ∷ flush_tasks else flush_tasks) ≡ 0
  count-flush_tasks true = refl
  count-flush_tasks false = refl

  count-advance :
      (s : Threads) (turn : Turn)
      → count_all f t (advance s turn) ≡ count_all f t s + count f t (taken s turn)
  unfolding advance
  count-advance s (captures minted e) = count-admit s e.type (prepared s.shared minted e)
  count-advance s calls_flush = omega (
    arith,
    count-flush_tasks s.shared.async,
    count_callers-append f t s.callers
        ((if s.shared.async then waits ∷ flush_tasks else flush_tasks) ∷ []),
  )
  count-advance s receives = count-take_item s s.worker s.shared.queue refl refl ∙ omega arith
  count-advance s ticks = count-take_tick s s.worker refl ∙ omega arith
  count-advance s works = omega (arith, count-continue f t s.shared s.worker)
  count-advance s (goes_on n) = omega (arith, count-continue_caller f t n s.shared s.callers)

  -- However the steps of the callers, of the worker and of its ticker interleave between the provider's locks,
  -- each payload is at any time sent, buffered, queued, or in the hands of a goroutine exactly as often as it
  -- was taken in: of the payloads of a type that pass a test, whatever the test, there are as many as there
  -- were and as have been taken in since. A payload that met a full queue was not taken in.
  pub count-advance_all :
      (s : Threads) (turns : List Turn)
      → count_all f t (advance_all s turns) ≡ count_all f t s + taken_all s turns
  unfolding advance_all
  count-advance_all s [] = omega arith
  count-advance_all s (turn ∷ turns) =
      omega (arith, count-advance_all (advance s turn) turns, count-advance s turn)
