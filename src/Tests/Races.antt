-- ===== src/Tests/Races.antt =====
-- The provider and its goroutines.
use duckbug_go.Base.{true, List, [], ◌∷◌, ◌≡◌, refl, ◌+◌}
use duckbug_go.Value.{delete}
use duckbug_go.Core.Types.{logs}
use duckbug_go.Provider.Payload.{
  prepare_payload, strip_nil_values, strip_fields, apply_privacy, clone_map, clone_fields,
}
use duckbug_go.Provider.State.{
  new_provider, prepared, enqueue, flush_buffers, receive, capture_prepared,
}
use duckbug_go.Provider.State.Threads.{
  stores, completes, flush_tasks, Threads, Turn, captures, calls_flush, receives, ticks, works,
  goes_on, advance_all,
}
use duckbug_go.Provider.State.Threads.Counts.{count_all}
use duckbug_go.Provider.State.Threads.Kept.{taken_all, count-advance_all}
use duckbug_go.Provider.State.Threads.Alone.{Runs, receive-Runs}
use duckbug_go.Tests.{pairs, flaky, log_event, login}

abbrev started : Threads
started = record { shared = new_provider pairs flaky; worker = []; callers = [] }

-- A tick takes the buffered line away, and `Flush` returns before the worker has sent it.
abbrev overtaken : List Turn
overtaken =
    captures "id-1" log_event
    ∷ receives
    ∷ works
    ∷ works
    ∷ ticks
    ∷ works
    ∷ works
    ∷ calls_flush
    ∷ goes_on 0
    ∷ goes_on 0
    ∷ goes_on 0
    ∷ []

nothing_sent :
    ((advance_all started overtaken).callers ≡ [] ∷ [])
    × ((advance_all started overtaken).shared.sent ≡ [])
unfolding advance_all new_provider prepared prepare_payload strip_nil_values strip_fields
    apply_privacy delete clone_map clone_fields enqueue
nothing_sent = (refl, refl)

count-advance_all_example :
    count_all (λ fs. true) logs (advance_all started overtaken)
    ≡ count_all (λ fs. true) logs started + taken_all (λ fs. true) logs started overtaken
count-advance_all_example = count-advance_all (λ fs. true) logs started overtaken

receive-Runs_example :
    Runs
      (record started.shared { queue = [] })
      (stores logs login ∷ completes ∷ [])
      (receive started.shared (logs, login) [])
    × Runs started.shared flush_tasks (flush_buffers started.shared)
    × Runs started.shared (stores logs login ∷ []) (capture_prepared started.shared logs login)
receive-Runs_example = receive-Runs started.shared logs login []
