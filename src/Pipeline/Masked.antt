-- ===== src/Pipeline/Masked.antt =====
-- core/duck.go and providers/duckbug/provider.go together: what is masked in the payloads that the transport gets.
use duckbug_go.Base.{
  String, ℕ, ◌<◌, Bool, true, false, Option, none, some, List, [], ◌∷◌, ◌++◌, ◌≡◌, ap, ◌∙◌,
  if◌then◌else◌, All, All-append,
}
use duckbug_go.Text.{Unicode}
use duckbug_go.Value.{Fields}
use duckbug_go.Pond.{Pond}
use duckbug_go.Core.Util.{Reflection}
use duckbug_go.Core.Types.{EventType, same_type, errors, logs, transactions, Event}
use duckbug_go.Core.Duck.{Duck, ProviderCall}
use duckbug_go.Core.Duck.Dispatch.{capture_error_at, log_context_at, capture_transaction_context}
use duckbug_go.Core.Duck.Safe.{AllSafe}
use duckbug_go.Core.Duck.Sanitized.{IsPlainCall, error_payload-AllSafe, log_payload-AllSafe}
use duckbug_go.Core.Duck.Spans.{TransactionPlain, transaction_payload-AllSafe}
use duckbug_go.Core.Duck.Delivered.{OptSafe, IsSafeCall, dispatch-IsSafeCall}
use duckbug_go.Provider.Config.{Settings}
use duckbug_go.Provider.Payload.Kept.{prepare_payload-OptSafe}
use duckbug_go.Provider.State.{Provider, Transport, new_provider, prepared, is_declared}
use duckbug_go.Provider.State.Order.{delivered}
use duckbug_go.Provider.State.Run.{
  Op, capture, take, tick, step, run, queued, to_list, is_full, taken_in, history,
}
use duckbug_go.Provider.State.Run.History.{history-run}
use duckbug_go.Pipeline.{
  Action, captures_error, captures_log, captures_transaction, act, acts, Interleaves, done, takes,
  passes, works, ticks,
}
use duckbug_go.Pipeline.Settings.{step-settings}

-- The maps that an action reads are JSON-like data.
abbrev pub IsPlainAction : ⦃u : Unicode⦄ → Duck → Action → Type 0
IsPlainAction d (captures_error c at e details) = IsPlainCall c d
IsPlainAction d (captures_log c at severity message details) = IsPlainCall c d
IsPlainAction d (captures_transaction c t) = IsPlainCall c d × TransactionPlain t

module _ ⦃u : Unicode⦄ ⦃r : Reflection⦄ (d : Duck) where
  act-IsSafeCall : (a : Action) → IsPlainAction d a → All (IsSafeCall d.pond) (act d a)
  unfolding act capture_error_at log_context_at capture_transaction_context
  act-IsSafeCall (captures_error c at e details) h =
      dispatch-IsSafeCall d.pond d errors _ (error_payload-AllSafe c at e details d h)
  act-IsSafeCall (captures_log c at severity message details) h =
      dispatch-IsSafeCall d.pond d logs _ (log_payload-AllSafe c at severity message details d h)
  act-IsSafeCall (captures_transaction c t) h =
      dispatch-IsSafeCall d.pond d transactions _ (transaction_payload-AllSafe c t d h.0 h.1)

  acts-IsSafeCall :
      (actions : List Action)
      → All (IsPlainAction d) actions
      → All (IsSafeCall d.pond) (acts d actions)
  unfolding acts
  acts-IsSafeCall [] h = tt
  acts-IsSafeCall (a ∷ actions) h =
      All-append (IsSafeCall d.pond) (act d a) (acts d actions) (act-IsSafeCall a h.0)
        (acts-IsSafeCall actions h.1)

module _ ⦃u : Unicode⦄ (p : Pond) where
  abbrev IsSafeOp : Op → Type 0
  IsSafeOp (capture minted e) = OptSafe p e.payload
  IsSafeOp take = Unit
  IsSafeOp tick = Unit

  Interleaves-IsSafeOp :
      (number : ℕ) (calls : List ProviderCall) (ops : List Op)
      → Interleaves number calls ops
      → All (IsSafeCall p) calls
      → All IsSafeOp ops
  Interleaves-IsSafeOp number [] [] done h = tt
  Interleaves-IsSafeOp number _ _ (takes minted e i) h =
      (h.0, Interleaves-IsSafeOp number _ _ i h.1)
  Interleaves-IsSafeOp number _ _ (passes c o i) h = Interleaves-IsSafeOp number _ _ i h.1
  Interleaves-IsSafeOp number _ _ (works i) h = (tt, Interleaves-IsSafeOp number _ _ i h)
  Interleaves-IsSafeOp number _ _ (ticks i) h = (tt, Interleaves-IsSafeOp number _ _ i h)

  to_list-Safe : (o : Option Fields) → OptSafe p o → All (AllSafe p) (to_list o)
  to_list-Safe none h = tt
  to_list-Safe (some fs) h = (h, tt)

  if-Safe :
      (b : Bool) (xs ys : List Fields)
      → All (AllSafe p) xs
      → All (AllSafe p) ys
      → All (AllSafe p) (if b then xs else ys)
  if-Safe true xs ys h i = h
  if-Safe false xs ys h i = i

  if-OptSafe : (b : Bool) (o : Option Fields) → OptSafe p o → OptSafe p (if b then o else none)
  if-OptSafe true o h = h
  if-OptSafe false o h = tt

  prepared-OptSafe :
      (s : Provider) (minted : String) (e : Event)
      → s.before_send ≡ none
      → OptSafe p e.payload
      → OptSafe p (prepared s minted e)
  unfolding prepared
  prepared-OptSafe s minted e n h =
      if-OptSafe (is_declared e.type) _
        (rw n (prepare_payload-OptSafe p s.privacy minted e.type e.payload h))

  taken_in-Safe :
      (t : EventType) (s : Provider) (op : Op)
      → s.before_send ≡ none
      → IsSafeOp op
      → All (AllSafe p) (taken_in t s op)
  taken_in-Safe t s (capture minted e) n h =
      if-Safe (is_full s) [] _ tt
        (if-Safe (same_type e.type t) _ [] (to_list-Safe _ (prepared-OptSafe s minted e n h)) tt)
  taken_in-Safe t s take n h = tt
  taken_in-Safe t s tick n h = tt

  history-Safe :
      (t : EventType) (s : Provider) (ops : List Op)
      → s.before_send ≡ none
      → All IsSafeOp ops
      → All (AllSafe p) (history t s ops)
  unfolding history
  history-Safe t s [] n h = tt
  history-Safe t s (op ∷ ops) n h =
      All-append (AllSafe p) (taken_in t s op) (history t (step s op) ops)
        (taken_in-Safe t s op n h.0)
        (history-Safe t (step s op) ops (ap (λ x. x.before_send) (step-settings s op) ∙ n) h.1)

  All-left : (xs ys : List Fields) → All (AllSafe p) (xs ++ ys) → All (AllSafe p) xs
  All-left [] ys h = tt
  All-left (x ∷ xs) ys h = (h.0, All-left xs ys h.1)

  All-first :
      (xs ys zs ws : List Fields) → (xs ++ ys) ++ zs ≡ ws → All (AllSafe p) ws → All (AllSafe p) xs
  All-first xs ys zs ws e h = All-left xs ys (All-left (xs ++ ys) zs (rw e h))

  delivered-Safe :
      (s : Settings) (f : Transport) (ops : List Op) (t : EventType)
      → 0 < s.batch_size
      → s.before_send ≡ none
      → All IsSafeOp ops
      → All (AllSafe p) (delivered t (run (new_provider s f) ops).sent)
  unfolding new_provider
  delivered-Safe s f ops t n b h =
      let p' = run (new_provider s f) ops in
      All-first (delivered t p'.sent) (p'.buffers t) (queued t p'.queue) _ (history-run s f ops t n)
        (history-Safe t (new_provider s f) ops b h)

-- Whatever a client is asked to capture, however its calls interleave with the turns of a provider's worker
-- and ticker, each of them taken whole, and whatever the transport answers, every payload that the transport
-- was given holds the mask of the client's pond at every sensitive key, at any depth, in each entry but the
-- breadcrumbs, the chain of exceptions and the stack. The maps of the scope, the requests and the
-- transactions are JSON-like data, the batch size is at least one, and there is no `BeforeSend`.
pub sent-AllSafe :
    ⦃u : Unicode⦄ ⦃r : Reflection⦄ (d : Duck) (actions : List Action) (number : ℕ) (ops : List Op)
    (s : Settings) (f : Transport) (t : EventType)
    → All (IsPlainAction d) actions
    → Interleaves number (acts d actions) ops
    → 0 < s.batch_size
    → s.before_send ≡ none
    → All (AllSafe d.pond) (delivered t (run (new_provider s f) ops).sent)
sent-AllSafe d actions number ops s f t h i n b =
    delivered-Safe d.pond s f ops t n b
      (Interleaves-IsSafeOp d.pond number _ ops i (acts-IsSafeCall d actions h))
