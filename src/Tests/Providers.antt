-- ===== src/Tests/Providers.antt =====
-- The provider over a short history.
use duckbug_go.Base.{◌+◌, List, [], ◌∷◌, ◌++◌, ◌≡◌, arith}
use duckbug_go.Core.Types.{errors, logs, transactions}
use duckbug_go.Provider.State.{Provider, new_provider, flush}
use duckbug_go.Provider.State.Order.{delivered}
use duckbug_go.Provider.State.Run.{Op, capture, take, tick, run, queued, total, history}
use duckbug_go.Provider.State.Run.Flow.{Healthy}
use duckbug_go.Provider.State.Run.History.{history-run, run-bounded}
use duckbug_go.Provider.State.Run.Flush.{flush_sends_all}
use duckbug_go.Provider.State.Run.Reports.{reports, failed, drops, reports-run}
use duckbug_go.Tests.{pairs, flaky, error_event, log_event, transaction_event}

abbrev day : List Op
day =
    capture "a" error_event
    ∷ capture "b" log_event
    ∷ take
    ∷ capture "c" transaction_event
    ∷ capture "d" error_event
    ∷ capture "e" error_event
    ∷ take
    ∷ tick
    ∷ []

abbrev evening : Provider
evening = run (new_provider pairs flaky) day

history-run_example :
    (delivered errors evening.sent ++ evening.buffers errors) ++ queued errors evening.queue
    ≡ history errors (new_provider pairs flaky) day
history-run_example = history-run pairs flaky day errors (omega arith)

run-bounded_example : Healthy evening
run-bounded_example = run-bounded pairs flaky day (omega arith)

flush_sends_all_example :
    ((flush evening).queue ≡ [])
    × (delivered errors (flush evening).sent ≡ total errors evening)
    × (delivered logs (flush evening).sent ≡ total logs evening)
    × (delivered transactions (flush evening).sent ≡ total transactions evening)
flush_sends_all_example = flush_sends_all evening (run-bounded pairs flaky day (omega arith))

reports-run_example : reports evening ≡ failed evening.sent + drops (new_provider pairs flaky) day
reports-run_example = reports-run pairs flaky day
