-- ===== src/Pipeline/Ids.antt =====
-- core/duck.go and providers/duckbug/provider.go together: which events the transport is given, and in which order.
use duckbug_go.Base.{
  String, ℕ, ◌<◌, ◌≤◌, ◌==◌, true, false, Option, none, some, List, [], ◌∷◌, ◌++◌, length, ◌≡◌,
  refl, ap, ◌∙◌, sym, inl, inr, Bool-cases, All, arith,
}
use duckbug_go.Text.{Unicode, is_blank}
use duckbug_go.Value.{Value, str, Fields, lookup}
use duckbug_go.Core.Util.{Reflection}
use duckbug_go.Core.Types.{EventType, errors, logs, transactions, other, Event, same_type}
use duckbug_go.Core.Duck.{Duck, ProviderCall, captures, flushes}
use duckbug_go.Core.Duck.Identified.{id_of}
use duckbug_go.Provider.Config.{Settings}
use duckbug_go.Provider.Payload.Prepare.{prepare_payload-keeps_id}
use duckbug_go.Provider.State.{Provider, Transport, new_provider, prepared, is_declared, flush}
use duckbug_go.Provider.State.Order.{delivered}
use duckbug_go.Provider.State.Run.{
  Op, capture, take, tick, step, run, to_list, taken_in, history, total, is_full,
}
use duckbug_go.Provider.State.Run.History.{history-run, run-bounded}
use duckbug_go.Provider.State.Run.Flush.{flush_sends_all}
use duckbug_go.Provider.State.Run.Room.{captured, HasRoom, step-HasRoom, is_full-HasRoom}
use duckbug_go.Pipeline.{Action, acts, is_for, Interleaves, done, takes, passes, works, ticks}
use duckbug_go.Pipeline.Settings.{step-settings}
use duckbug_go.Pipeline.Calls.{
  action_ids, times, calls_for, event_id, call_ids, IsIdentified, IsIdentifiedCall, HasId,
  acts-IsIdentifiedCall, call_ids-acts, calls_for-acts,
}

-- The ids of payloads.
abbrev pub payload_ids : List Fields → List (Option Value)
payload_ids [] = []
payload_ids (fs ∷ l) = lookup "eventId" fs ∷ payload_ids l

payload_ids-append :
    (xs ys : List Fields) → payload_ids (xs ++ ys) ≡ payload_ids xs ++ payload_ids ys
payload_ids-append [] ys = refl
payload_ids-append (x ∷ xs) ys = ap (λ l. lookup "eventId" x ∷ l) (payload_ids-append xs ys)

to_list-ids :
    (o : Option Fields) {s : String}
    → id_of o ≡ some (str s)
    → payload_ids (to_list o) ≡ some (str s) ∷ []
unfolding lookup
to_list-ids none h = cc
to_list-ids (some fs) h = ap (λ v. v ∷ []) h

some_payload :
    (o : Option Fields) {s : String}
    → id_of o ≡ some (str s)
    → (fs : Fields) × (o ≡ some fs) × (lookup "eventId" fs ≡ some (str s))
unfolding lookup
some_payload none h = cc
some_payload (some fs) h = (fs, refl, h)

-- Preparing an identified event keeps its id.
id-prepared :
    (p : Provider) (minted : String) (e : Event) {s : String}
    → p.before_send ≡ none
    → is_declared e.type ≡ true
    → id_of e.payload ≡ some (str s)
    → is_blank s ≡ false
    → id_of (prepared p minted e) ≡ some (str s)
unfolding prepared
id-prepared p minted e {s} n declared h b =
    let (fs, same, found) = some_payload e.payload h in
    rw (declared, n, same) (prepare_payload-keeps_id p.privacy minted e.type s fs found b)

-- What a provider takes in of an identified event that its queue has room for.
capture-ids :
    (t : EventType) (p : Provider) (minted : String) (e : Event)
    → p.before_send ≡ none
    → IsIdentified e
    → is_full p ≡ false
    → payload_ids (taken_in t p (capture minted e)) ≡ event_id t e
capture-ids t p minted e n (declared, s, h, b) room =
    rw room (elim (Bool-cases (same_type e.type t)) [
      | inl q ↦
          rw (q, h) (to_list-ids (prepared p minted e) (id-prepared p minted e n declared h b))
      | inr q ↦ rw q
    ])

passed :
    (number : ℕ) (t : EventType) (c : ProviderCall) (calls : List ProviderCall)
    → is_for number c ≡ false
    → call_ids number t (c ∷ calls) ≡ call_ids number t calls
passed number t (captures to e) calls o = rw o
passed number t (flushes to) calls o = refl

same_settings : (p : Provider) (op : Op) → p.before_send ≡ none → (step p op).before_send ≡ none
same_settings p op n = ap (λ s. s.before_send) (step-settings p op) ∙ n

room_after :
    (p : Provider) (op : Op) (ops : List Op) → HasRoom p (op ∷ ops) → HasRoom (step p op) ops
room_after p op ops = step-HasRoom p op ops (step-settings p op)

-- A provider that has room takes in every event of its calls, in order.
history-ids :
    (number : ℕ) (t : EventType) (calls : List ProviderCall) (ops : List Op)
    → Interleaves number calls ops
    → (p : Provider) → p.before_send ≡ none
    → HasRoom p ops
    → All IsIdentifiedCall calls
    → payload_ids (history t p ops) ≡ call_ids number t calls
unfolding history
history-ids number t [] [] done p n room h = refl
history-ids number t _ _ (takes {calls = calls} {ops = ops} minted e i) p n room h =
    let op = capture minted e in
    let full : is_full p ≡ false = is_full-HasRoom p op ops (omega arith) room in
    let same : (number == number) ≡ true = ground arith in
    payload_ids-append (taken_in t p op) (history t (step p op) ops)
    ∙ rw (capture-ids t p minted e n h.0 full, same)
        (ap (λ l. event_id t e ++ l)
          (history-ids number t calls ops i (step p op) (same_settings p op n)
            (room_after p op ops room) h.1))
history-ids number t _ ops (passes {calls = calls} c o i) p n room h =
    history-ids number t calls ops i p n room h.1 ∙ sym (passed number t c calls o)
history-ids number t calls _ (works {ops = ops} i) p n room h =
    history-ids number t calls ops i (step p take) (same_settings p take n)
      (room_after p take ops room) h
history-ids number t calls _ (ticks {ops = ops} i) p n room h =
    history-ids number t calls ops i (step p tick) (same_settings p tick n)
      (room_after p tick ops room) h

captured-calls_for :
    (number : ℕ) (calls : List ProviderCall) (ops : List Op)
    → Interleaves number calls ops
    → captured ops ≡ calls_for number calls
captured-calls_for number [] [] done = refl
captured-calls_for number _ _ (takes {calls = calls} {ops = ops} minted e i) =
    let same : (number == number) ≡ true = ground arith in
    rw (same, captured-calls_for number calls ops i) refl
captured-calls_for number _ ops (passes {calls = calls} c o i) =
    rw (o, captured-calls_for number calls ops i) refl
captured-calls_for number calls _ (works {ops = ops} i) = captured-calls_for number calls ops i
captured-calls_for number calls _ (ticks {ops = ops} i) = captured-calls_for number calls ops i

-- What `Flush` leaves sent of a type that is declared.
flushed :
    (s : Settings) (f : Transport) (ops : List Op) (t : EventType)
    → 0 < s.batch_size
    → is_declared t ≡ true
    → delivered t (flush (run (new_provider s f) ops)).sent ≡ history t (new_provider s f) ops
flushed s f ops t n declared = each t declared ∙ history-run s f ops t n
  where
    p : Provider
    p = run (new_provider s f) ops

    all :
        ((flush p).queue ≡ [])
        × (delivered errors (flush p).sent ≡ total errors p)
        × (delivered logs (flush p).sent ≡ total logs p)
        × (delivered transactions (flush p).sent ≡ total transactions p)
    all = flush_sends_all p (run-bounded s f ops n)

    each : (t : EventType) → is_declared t ≡ true → delivered t (flush p).sent ≡ total t p
    each errors d = all.1
    each logs d = all.2
    each transactions d = all.3
    each (other x) d = cc

-- Once `Flush` has returned without having given up, the transport has been given each event that the client was
-- asked to capture exactly once, in the order of the calls within a type, and under the id that the client
-- minted for it, however the calls interleave with the turns of the provider's worker and ticker, each of
-- them taken whole, and whatever the transport answers. The provider is registered once, the minted ids are
-- not blank, the batch size is at least one, there is no `BeforeSend`, and the queue of an asynchronous
-- provider has room for all the events.
pub flush_delivers :
    ⦃u : Unicode⦄ ⦃r : Reflection⦄ (d : Duck) (actions : List Action) (number : ℕ) (ops : List Op)
    (s : Settings) (f : Transport) (t : EventType)
    → times number d.providers ≡ 1
    → Interleaves number (acts d actions) ops
    → All HasId actions
    → 0 < s.batch_size
    → s.before_send ≡ none
    → (s.async ≡ true → length actions ≤ s.queue_size)
    → is_declared t ≡ true
    → payload_ids (delivered t (flush (run (new_provider s f) ops)).sent) ≡ action_ids t actions
unfolding new_provider
flush_delivers d actions number ops s f t once i ids n b room declared =
    ap payload_ids (flushed s f ops t n declared)
    ∙ history-ids number t (acts d actions) ops i (new_provider s f) b fits
        (acts-IsIdentifiedCall d actions ids)
    ∙ call_ids-acts d number once t actions
  where
    fits : HasRoom (new_provider s f) ops
    fits a =
        rw (captured-calls_for number (acts d actions) ops i, calls_for-acts d number once actions)
          (omega (arith, room a))
