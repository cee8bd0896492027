-- ===== src/Pipeline/Calls.antt =====
-- core/duck.go: the calls of one provider that a client's actions lead to, and the ids of their events.
use duckbug_go.Base.{
  String, ℕ, suc, ◌+◌, ◌==◌, Bool, true, false, Option, some, List, [], ◌∷◌, ◌++◌, append_assoc,
  append-nil, length, ◌≡◌, refl, ap, ◌∙◌, sym, inl, inr, Bool-cases, if◌then◌else◌, All, All-append,
  arith,
}
use duckbug_go.Text.{Unicode, is_blank}
use duckbug_go.Value.{Value, str}
use duckbug_go.Core.Util.{Reflection}
use duckbug_go.Core.Types.{EventType, errors, logs, transactions, Event, same_type}
use duckbug_go.Core.Duck.{Duck, Handle, Circumstances, ProviderCall, captures, flushes}
use duckbug_go.Core.Duck.Carried.{error_payload-Carries, log_payload-Carries}
use duckbug_go.Core.Duck.Dispatch.{
  dispatch, dispatch_to, capture_error_at, log_context_at, capture_transaction_context,
}
use duckbug_go.Core.Duck.Identified.{id_of, id-new_event, id-transaction_payload}
use duckbug_go.Provider.State.{is_declared}
use duckbug_go.Pipeline.{
  Action, captures_error, captures_log, captures_transaction, act, acts, is_for,
}

abbrev pub circumstances : Action → Circumstances
circumstances (captures_error c at e details) = c
circumstances (captures_log c at severity message details) = c
circumstances (captures_transaction c t) = c

abbrev pub type_of : Action → EventType
type_of (captures_error c at e details) = errors
type_of (captures_log c at severity message details) = logs
type_of (captures_transaction c t) = transactions

-- The ids of the actions of a type, in order.
abbrev pub action_ids : EventType → List Action → List (Option Value)
action_ids t [] = []
action_ids t (a ∷ actions) =
    let rest = action_ids t actions in
    if same_type (type_of a) t then some (str (circumstances a).event_id) ∷ rest else rest

-- How often a provider is registered.
abbrev pub times : ℕ → List Handle → ℕ
times number [] = 0
times number (h ∷ hs) = let rest = times number hs in if h.number == number then suc rest else rest

-- How many events the calls hand to a provider.
abbrev pub calls_for : ℕ → List ProviderCall → ℕ
calls_for number [] = 0
calls_for number (c ∷ calls) =
    let rest = calls_for number calls in if is_for number c then suc rest else rest

abbrev pub event_id : EventType → Event → List (Option Value)
event_id t e = if same_type e.type t then id_of e.payload ∷ [] else []

-- The ids of the events of a type that the calls hand to a provider.
abbrev pub call_ids : ℕ → EventType → List ProviderCall → List (Option Value)
call_ids number t [] = []
call_ids number t (captures to e ∷ calls) =
    let rest = call_ids number t calls in if to == number then event_id t e ++ rest else rest
call_ids number t (flushes to ∷ calls) = call_ids number t calls

-- The event has a type that the provider takes and a usable id.
abbrev pub IsIdentified : Event → Type 0
IsIdentified e =
    (is_declared e.type ≡ true)
    × (s : String) × (id_of e.payload ≡ some (str s))
    × (is_blank s ≡ false)

abbrev pub IsIdentifiedCall : ProviderCall → Type 0
IsIdentifiedCall (captures to e) = IsIdentified e
IsIdentifiedCall (flushes to) = Unit

abbrev pub HasId : Action → Type 0
HasId a = is_blank (circumstances a).event_id ≡ false

unheard :
    (number : ℕ) (t : EventType) (hs : List Handle) (e : Event)
    → times number hs ≡ 0
    → (call_ids number t (dispatch_to hs e) ≡ []) × (calls_for number (dispatch_to hs e) ≡ 0)
unfolding dispatch_to
unheard number t [] e n = (refl, refl)
unheard number t (h ∷ hs) e n = elim (Bool-cases (h.number == number)) [
  | inl q ↦ absurd (ground arith)
  | inr q ↦ rw q (unheard number t hs e (rw q at n))
]

heard_once :
    (number : ℕ) (t : EventType) (hs : List Handle) (e : Event)
    → times number hs ≡ 1
    → (call_ids number t (dispatch_to hs e) ≡ event_id t e)
      × (calls_for number (dispatch_to hs e) ≡ 1)
unfolding dispatch_to
heard_once number t [] e n = absurd (ground arith)
heard_once number t (h ∷ hs) e n = elim (Bool-cases (h.number == number)) [
  | inl q ↦
      let (ids, count) = unheard number t hs e (ground arith) in
      rw (q, ids, count) (append-nil (event_id t e), refl)
  | inr q ↦ rw q (heard_once number t hs e (rw q at n))
]

each-IsIdentifiedCall :
    (hs : List Handle) (e : Event) → IsIdentified e → All IsIdentifiedCall (dispatch_to hs e)
unfolding dispatch_to
each-IsIdentifiedCall [] e h = tt
each-IsIdentifiedCall (x ∷ hs) e h = (h, each-IsIdentifiedCall hs e h)

call_ids-append :
    (number : ℕ) (t : EventType) (xs ys : List ProviderCall)
    → call_ids number t (xs ++ ys) ≡ call_ids number t xs ++ call_ids number t ys
call_ids-append number t [] ys = refl
call_ids-append number t (flushes to ∷ xs) ys = call_ids-append number t xs ys
call_ids-append number t (captures to e ∷ xs) ys = elim (Bool-cases (to == number)) [
  | inl q ↦
      rw (q, call_ids-append number t xs ys)
        (sym (append_assoc (event_id t e) (call_ids number t xs) (call_ids number t ys)))
  | inr q ↦ rw q (call_ids-append number t xs ys)
]

calls_for-append :
    (number : ℕ) (xs ys : List ProviderCall)
    → calls_for number (xs ++ ys) ≡ calls_for number xs + calls_for number ys
calls_for-append number [] ys = omega arith
calls_for-append number (c ∷ xs) ys = ground (arith, calls_for-append number xs ys)

module _ ⦃u : Unicode⦄ ⦃r : Reflection⦄ (d : Duck) where
  -- The event that an action makes.
  event_of :
      (a : Action)
      → (e : Event) × (act d a ≡ dispatch_to d.providers e)
        × (e.type ≡ type_of a)
        × (id_of e.payload ≡ some (str (circumstances a).event_id))
  unfolding act capture_error_at log_context_at capture_transaction_context dispatch
  event_of (captures_error c at e details) =
      (_, refl, refl, id-new_event errors _ (error_payload-Carries c at e details d).0.0)
  event_of (captures_log c at severity message details) =
      (_, refl, refl, id-new_event logs _ (log_payload-Carries c at severity message details d).0.0)
  event_of (captures_transaction c t) =
      (_, refl, refl, id-new_event transactions _ (id-transaction_payload c t d))

  type_of-declared : (a : Action) → is_declared (type_of a) ≡ true
  type_of-declared (captures_error c at e details) = refl
  type_of-declared (captures_log c at severity message details) = refl
  type_of-declared (captures_transaction c t) = refl

  pub acts-IsIdentifiedCall :
      (actions : List Action) → All HasId actions → All IsIdentifiedCall (acts d actions)
  unfolding acts
  acts-IsIdentifiedCall [] h = tt
  acts-IsIdentifiedCall (a ∷ actions) h =
      let (e, call, kind, id) = event_of a in
      All-append IsIdentifiedCall (act d a) (acts d actions)
        (rw call (
          each-IsIdentifiedCall d.providers e
            (ap is_declared kind ∙ type_of-declared a, (circumstances a).event_id, id, h.0)))
        (acts-IsIdentifiedCall actions h.1)

  module _ (number : ℕ) (registered : times number d.providers ≡ 1) where
    pub call_ids-acts :
        (t : EventType) (actions : List Action)
        → call_ids number t (acts d actions) ≡ action_ids t actions
    unfolding acts
    call_ids-acts t [] = refl
    call_ids-acts t (a ∷ actions) =
        let (e, call, kind, id) = event_of a in
        let once = heard_once number t d.providers e registered in
        call_ids-append number t (act d a) (acts d actions)
        ∙ rw (call, once.0, call_ids-acts t actions, kind, id) (front (same_type (type_of a) t))
      where
        front :
            (b : Bool)
            → (if b then some (str (circumstances a).event_id) ∷ [] else []) ++ action_ids t actions
              ≡ (if b
                  then some (str (circumstances a).event_id) ∷ action_ids t actions
                  else action_ids t actions)
        front true = refl
        front false = refl

    pub calls_for-acts :
        (actions : List Action) → calls_for number (acts d actions) ≡ length actions
    unfolding acts
    calls_for-acts [] = refl
    calls_for-acts (a ∷ actions) =
        let (e, call, kind, id) = event_of a in
        let once = heard_once number errors d.providers e registered in
        calls_for-append number (act d a) (acts d actions)
        ∙ rw (call, once.1, calls_for-acts actions) (omega arith)
