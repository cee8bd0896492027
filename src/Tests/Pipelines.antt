-- ===== src/Tests/Pipelines.antt =====
-- A client and one of its providers, together.
use duckbug_go.Base.{true, none, some, List, [], ◌∷◌, All, ◌≡◌, refl, arith}
use duckbug_go.Core.Types.{Event, logs, transactions}
use duckbug_go.Core.Level.{any_text}
use duckbug_go.Core.Duck.{Duck, log_payload}
use duckbug_go.Core.Duck.Dispatch.{
  new_event, dispatch, dispatch_to, log_context_at, capture_transaction_context,
  build_transaction_payload,
}
use duckbug_go.Core.Duck.Safe.{AllSafe}
use duckbug_go.Provider.State.{new_provider, flush}
use duckbug_go.Provider.State.Order.{delivered}
use duckbug_go.Provider.State.Run.{Op, capture, take, tick, run}
use duckbug_go.Pipeline.{
  Action, captures_log, captures_transaction, act, acts, Interleaves, done, takes, works, ticks,
}
use duckbug_go.Pipeline.Masked.{sent-AllSafe}
use duckbug_go.Pipeline.Calls.{action_ids}
use duckbug_go.Pipeline.Ids.{payload_ids, flush_delivers}
use duckbug_go.Text.{trim_space}
use duckbug_go.Tests.{ascii, plain_reflection, any_value, checkout, pairs, flaky}
use duckbug_go.Tests.Clients.{client, calm}

abbrev shop : Duck
shop = record client { providers = record { number = 1; flushable = true } ∷ [] }

abbrev said : Event
said = new_event logs (log_payload calm none (any_text "info") "hi" (some any_value) shop)

abbrev paid : Event
paid = new_event transactions (build_transaction_payload calm checkout shop)

abbrev actions : List Action
actions =
    captures_log calm none (any_text "info") "hi" (some any_value)
    ∷ captures_transaction calm checkout
    ∷ []

abbrev turns : List Op
turns = capture "id-1" said ∷ take ∷ capture "id-2" paid ∷ take ∷ tick ∷ []

turns-Interleaves : Interleaves 1 (acts shop actions) turns
unfolding acts act log_context_at capture_transaction_context dispatch dispatch_to
turns-Interleaves = takes "id-1" said (works (takes "id-2" paid (works (ticks done))))

sent-AllSafe_example :
    All (AllSafe shop.pond) (delivered transactions (run (new_provider pairs flaky) turns).sent)
sent-AllSafe_example =
    sent-AllSafe shop actions 1 turns pairs flaky transactions
      (
        (((tt, (tt, ((tt, tt), (tt, (tt, tt))))), tt, tt, tt), tt),
        (((((tt, (tt, ((tt, tt), (tt, (tt, tt))))), tt, tt, tt), tt), (tt, (tt, tt))), tt),
      )
      turns-Interleaves (omega arith) refl

flush_delivers_example :
    payload_ids (delivered transactions (flush (run (new_provider pairs flaky) turns)).sent)
    ≡ action_ids transactions actions
unfolding trim_space
flush_delivers_example =
    flush_delivers shop actions 1 turns pairs flaky transactions refl turns-Interleaves
      (refl, (refl, tt)) (omega arith) refl (λ a. omega arith) refl
