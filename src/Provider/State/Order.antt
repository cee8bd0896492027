-- ===== src/Provider/State/Order.antt =====
-- providers/duckbug/provider.go: what was sent of a type, followed by what is buffered, over one flush or
-- capture.
use duckbug_go.Base.{
  ◌<◌, eq_iff, leb, Bool, true, false, List, [], ◌∷◌, ◌++◌, append-nil, append_assoc, if◌then◌else◌,
  length, ◌≡◌, refl, ap, ◌∙◌, sym, Bool-cases, inl, inr, arith,
}
use duckbug_go.Value.{Fields}
use duckbug_go.Core.Types.{EventType, errors, logs, transactions, other, same_type}
use duckbug_go.Provider.State.{
  Delivery, Provider, set_buffer, deliver, send_items, flush_type, is_direct, capture_prepared,
}

pub same_type_eq : (t t' : EventType) → same_type t t' ≡ true → t ≡ t'
same_type_eq errors errors h = refl
same_type_eq logs logs h = refl
same_type_eq transactions transactions h = refl
same_type_eq (other s) (other s') h = ap other ((eq_iff s s').0 h)
same_type_eq errors logs h = cc
same_type_eq errors transactions h = cc
same_type_eq errors (other s) h = cc
same_type_eq logs errors h = cc
same_type_eq logs transactions h = cc
same_type_eq logs (other s) h = cc
same_type_eq transactions errors h = cc
same_type_eq transactions logs h = cc
same_type_eq transactions (other s) h = cc
same_type_eq (other s) errors h = cc
same_type_eq (other s) logs h = cc
same_type_eq (other s) transactions h = cc

-- The payloads of a type that were sent, in order.
abbrev pub delivered : EventType → List Delivery → List Fields
delivered t [] = []
delivered t (d ∷ ds) =
    let rest = delivered t ds in if same_type d.type t then d.items ++ rest else rest

abbrev pub flow : EventType → Provider → List Fields
flow t p = delivered t p.sent ++ p.buffers t

-- The payloads, if they are of the type.
abbrev pub only : EventType → EventType → List Fields → List Fields
only t t' items = if same_type t t' then items else []

pub delivered-append :
    (t : EventType) (ds es : List Delivery)
    → delivered t (ds ++ es) ≡ delivered t ds ++ delivered t es
delivered-append t [] es = refl
delivered-append t (d ∷ ds) es = elim (Bool-cases (same_type d.type t)) [
  | inl e ↦
      rw (e, delivered-append t ds es)
        (sym (append_assoc d.items (delivered t ds) (delivered t es)))
  | inr e ↦ rw e (delivered-append t ds es)
]

module _ (p : Provider) (t : EventType) (batch : Bool) (items : List Fields) where
  abbrev pub sent_now : Delivery
  sent_now = record {
    type = t;
    batch = batch;
    items = items;
    result = p.transport p.sent t batch items;
  }

  pub deliver_fields :
      ((deliver p t batch items).sent ≡ p.sent ++ sent_now ∷ [])
      × ((deliver p t batch items).buffers ≡ p.buffers)
      × ((deliver p t batch items).settings ≡ p.settings)
  unfolding deliver
  deliver_fields = (ground arith, ground arith, ground arith)

  delivered-sent_now : (t' : EventType) → delivered t' (sent_now ∷ []) ≡ only t t' items
  delivered-sent_now t' = elim (Bool-cases (same_type t t')) [
    | inl e ↦ rw e (append-nil items)
    | inr e ↦ rw e
  ]

  flow-deliver :
      (t' : EventType)
      → flow t' (deliver p t batch items) ≡ delivered t' p.sent ++ (only t t' items ++ p.buffers t')
  flow-deliver t' =
      ap (λ ds. delivered t' ds ++ (deliver p t batch items).buffers t') deliver_fields.0
      ∙ ap (λ b. delivered t' (p.sent ++ sent_now ∷ []) ++ b t') deliver_fields.1
      ∙ ap (λ l. l ++ p.buffers t') (delivered-append t' p.sent (sent_now ∷ []))
      ∙ append_assoc (delivered t' p.sent) _ (p.buffers t')
      ∙ ap (λ l. delivered t' p.sent ++ (l ++ p.buffers t')) (delivered-sent_now t')

flow-send_items :
    (p : Provider) (t : EventType) (items : List Fields) (t' : EventType)
    → flow t' (send_items p t items) ≡ delivered t' p.sent ++ (only t t' items ++ p.buffers t')
flow-send_items p t [] t' = elim (Bool-cases (same_type t t')) [ inl e ↦ rw e | inr e ↦ rw e ]
flow-send_items p t (x ∷ []) t' = flow-deliver p t false (x ∷ []) t'
flow-send_items p t (x ∷ y ∷ items) t' = flow-deliver p t true (x ∷ y ∷ items) t'

-- A flush moves payloads from a buffer to the transport and keeps their order.
pub flow-flush_type : (p : Provider) (t t' : EventType) → flow t' (flush_type p t) ≡ flow t' p
unfolding flush_type
flow-flush_type p t t' =
    flow-send_items (record p { buffers = set_buffer t [] p.buffers }) t (p.buffers t) t'
    ∙ elim (Bool-cases (same_type t t')) [
      | inl e ↦ rw e (
          ap (λ l. delivered t' p.sent ++ l)
            (append-nil (p.buffers t) ∙ ap p.buffers (same_type_eq t t' e)))
      | inr e ↦ rw e
    ]

-- Between two calls: fewer payloads than a batch are buffered of each type, and no transactions.
pub record Inv (p : Provider) : Type 0 where
  pub below : (t : EventType) → length (p.buffers t) < p.batch_size
  pub single_shot : p.buffers transactions ≡ []

empty_of_length : (l : List Fields) → length l < 1 → l ≡ []
empty_of_length [] h = refl
empty_of_length (x ∷ l) h = absurd (omega arith)

direct_empty : (p : Provider) (t : EventType) → Inv p → is_direct p t ≡ true → p.buffers t ≡ []
direct_empty p t v h = elim (Bool-cases (same_type t transactions)) [
  | inl e ↦ ap p.buffers (same_type_eq t transactions e) ∙ v.single_shot
  | inr e ↦ empty_of_length (p.buffers t) (ground (arith, v.below t))
]

flow-buffered :
    (p : Provider) (t t' : EventType) (q : Fields)
    → flow t' (record p { buffers = set_buffer t (p.buffers t ++ q ∷ []) p.buffers })
      ≡ flow t' p ++ only t t' (q ∷ [])
flow-buffered p t t' q = elim (Bool-cases (same_type t t')) [
  | inl e ↦ rw e (
      ap (λ b. delivered t' p.sent ++ (b ++ q ∷ [])) (ap p.buffers (same_type_eq t t' e))
      ∙ sym (append_assoc (delivered t' p.sent) (p.buffers t') (q ∷ [])))
  | inr e ↦ rw e (sym (append-nil (flow t' p)))
]

flow-direct :
    (p : Provider) (t t' : EventType) (q : Fields)
    → p.buffers t ≡ []
    → flow t' (deliver p t false (q ∷ [])) ≡ flow t' p ++ only t t' (q ∷ [])
flow-direct p t t' q h = flow-deliver p t false (q ∷ []) t' ∙ elim (Bool-cases (same_type t t')) [
  | inl e ↦
      let none_left : p.buffers t' ≡ [] = ap p.buffers (sym (same_type_eq t t' e)) ∙ h in
      rw (e, none_left, append-nil (delivered t' p.sent))
  | inr e ↦ rw e (sym (append-nil (flow t' p)))
]

-- A captured payload comes after all that was captured before it, and no payload is lost or sent twice.
pub flow-capture_prepared :
    (p : Provider) (t : EventType) (q : Fields) (t' : EventType)
    → Inv p
    → flow t' (capture_prepared p t q) ≡ flow t' p ++ only t t' (q ∷ [])
unfolding capture_prepared
flow-capture_prepared p t q t' v = elim (Bool-cases (is_direct p t)) [
  | inl d ↦ rw d (flow-direct p t t' q (direct_empty p t v d))
  | inr d ↦
      let items = p.buffers t ++ q ∷ [] in
      let buffered : Provider = record p { buffers = set_buffer t items p.buffers } in
      rw d (elim (Bool-cases (leb p.batch_size (length items))) [
        | inl f ↦ rw f (flow-flush_type buffered t t' ∙ flow-buffered p t t' q)
        | inr f ↦ rw f (flow-buffered p t t' q)
      ])
]
