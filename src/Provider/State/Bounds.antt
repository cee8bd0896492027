-- ===== src/Provider/State/Bounds.antt =====
-- providers/duckbug/provider.go: the size of what is buffered and of what is sent.
use duckbug_go.Base.{
  ℕ, ◌≤◌, ◌<◌, leb, ltb, Bool, true, false, List, [], ◌∷◌, ◌++◌, length, length-append, ◌≡◌, refl,
  ap, Bool-cases, inl, inr, arith, All, All-append,
}
use duckbug_go.Value.{Fields}
use duckbug_go.Core.Types.{EventType, transactions, same_type}
use duckbug_go.Provider.State.{
  Delivery, Provider, set_buffer, deliver, send_items, flush_type, is_direct, capture_prepared,
}
use duckbug_go.Provider.State.Order.{Inv, deliver_fields, sent_now}

send_items_fields :
    (p : Provider) (t : EventType) (items : List Fields)
    → ((send_items p t items).buffers ≡ p.buffers) × ((send_items p t items).settings ≡ p.settings)
send_items_fields p t [] = (refl, refl)
send_items_fields p t (x ∷ []) =
    ((deliver_fields p t false (x ∷ [])).1, (deliver_fields p t false (x ∷ [])).2)
send_items_fields p t (x ∷ y ∷ items) =
    ((deliver_fields p t true (x ∷ y ∷ items)).1, (deliver_fields p t true (x ∷ y ∷ items)).2)

pub flush_type_fields :
    (p : Provider) (t : EventType)
    → ((flush_type p t).buffers ≡ set_buffer t [] p.buffers)
      × ((flush_type p t).settings ≡ p.settings)
unfolding flush_type
flush_type_fields p t =
    send_items_fields (record p { buffers = set_buffer t [] p.buffers }) t (p.buffers t)

-- The invariant on its two parts: the buffers and the settings.
abbrev pub InvOf : (EventType → List Fields) → ℕ → Type 0
InvOf buffers n = ((t : EventType) → length (buffers t) < n) × (buffers transactions ≡ [])

pub inv_of : (p q : Provider) → q.settings ≡ p.settings → InvOf q.buffers p.batch_size → Inv q
inv_of p q s h = record {
  below = λ t. let e : q.batch_size ≡ p.batch_size = ap (λ x. x.batch_size) s in rw e (h.0 t);
  single_shot = h.1;
}

set_empty :
    (buffers : EventType → List Fields) (t t' : EventType) (n : ℕ)
    → 0 < n
    → (same_type t t' ≡ false → length (buffers t') < n)
    → length (set_buffer t [] buffers t') < n
set_empty buffers t t' n h k = elim (Bool-cases (same_type t t')) [
  | inl e ↦ rw e h
  | inr e ↦ rw e (k e)
]

-- A flush keeps the invariant.
pub flush_type-Inv : (p : Provider) (t : EventType) → Inv p → Inv (flush_type p t)
flush_type-Inv p t v = inv_of p (flush_type p t) (flush_type_fields p t).1 (
    rw ((flush_type_fields p t).0) (
      λ t'. set_empty p.buffers t t' p.batch_size (omega (arith, v.below t)) (λ _. v.below t'),
      elim (Bool-cases (same_type t transactions)) [ inl e ↦ rw e | inr e ↦ rw (e, v.single_shot) ],
    ))

-- A capture keeps the invariant, whichever way it takes.
pub capture_prepared-Inv :
    (p : Provider) (t : EventType) (q : Fields) → Inv p → Inv (capture_prepared p t q)
unfolding capture_prepared
capture_prepared-Inv p t q v = elim (Bool-cases (is_direct p t)) [
  | inl d ↦ rw d (
      inv_of p (deliver p t false (q ∷ [])) (deliver_fields p t false (q ∷ [])).2
        (rw (deliver_fields p t false (q ∷ [])).1 (v.below, v.single_shot)))
  | inr d ↦
      let items = p.buffers t ++ q ∷ [] in
      let buffered : Provider = record p { buffers = set_buffer t items p.buffers } in
      let batched : same_type t transactions ≡ false = ground arith in
      rw d (elim (Bool-cases (leb p.batch_size (length items))) [
        | inl f ↦ rw f (
            inv_of p (flush_type buffered t) (flush_type_fields buffered t).1 (
              rw ((flush_type_fields buffered t).0) (
                λ t'.
                    set_empty buffered.buffers t t' p.batch_size (omega (arith, v.below t))
                      (λ e. rw e (v.below t')),
                rw (batched, v.single_shot),
              )))
        | inr f ↦ rw f (
            inv_of p buffered refl (
              λ t'. elim (Bool-cases (same_type t t')) [
                | inl e ↦ rw e (ground arith)
                | inr e ↦ rw e (v.below t')
              ],
              rw (batched, v.single_shot),
            ))
      ])
]

-- A request carries from one payload to a batch, and takes the batch route if it carries more than one.
abbrev pub IsSized : ℕ → Delivery → Type 0
IsSized n d = (1 ≤ length d.items) × (length d.items ≤ n) × (d.batch ≡ ltb 1 (length d.items))

deliver-IsSized :
    (p : Provider) (t : EventType) (batch : Bool) (items : List Fields) (n : ℕ)
    → 1 ≤ length items
    → length items ≤ n
    → batch ≡ ltb 1 (length items)
    → All (IsSized n) p.sent
    → All (IsSized n) (deliver p t batch items).sent
deliver-IsSized p t batch items n one most b h =
    rw (deliver_fields p t batch items).0
      (All-append (IsSized n) p.sent (sent_now p t batch items ∷ []) h ((one, most, b), tt))

send_items-IsSized :
    (p : Provider) (t : EventType) (items : List Fields) (n : ℕ)
    → length items ≤ n
    → All (IsSized n) p.sent
    → All (IsSized n) (send_items p t items).sent
send_items-IsSized p t [] n most h = h
send_items-IsSized p t (x ∷ []) n most h =
    deliver-IsSized p t false (x ∷ []) n (omega arith) most refl h
send_items-IsSized p t (x ∷ y ∷ items) n most h =
    deliver-IsSized p t true (x ∷ y ∷ items) n (omega arith) most (ground arith) h

pub flush_type-IsSized :
    (p : Provider) (t : EventType) (n : ℕ)
    → length (p.buffers t) ≤ n
    → All (IsSized n) p.sent
    → All (IsSized n) (flush_type p t).sent
unfolding flush_type
flush_type-IsSized p t n most h =
    send_items-IsSized (record p { buffers = set_buffer t [] p.buffers }) t (p.buffers t) n most h

pub capture_prepared-IsSized :
    (p : Provider) (t : EventType) (q : Fields)
    → Inv p
    → All (IsSized p.batch_size) p.sent
    → All (IsSized p.batch_size) (capture_prepared p t q).sent
unfolding capture_prepared
capture_prepared-IsSized p t q v h = elim (Bool-cases (is_direct p t)) [
  | inl d ↦ rw d (
      deliver-IsSized p t false (q ∷ []) p.batch_size (omega arith) (omega (arith, v.below t)) refl
        h)
  | inr d ↦
      let items = p.buffers t ++ q ∷ [] in
      let buffered : Provider = record p { buffers = set_buffer t items p.buffers } in
      rw d (elim (Bool-cases (leb p.batch_size (length items))) [
        | inl f ↦ rw f (
            flush_type-IsSized buffered t p.batch_size
              (elim (Bool-cases (same_type t t)) [
                | inl e ↦ rw e (omega (arith, v.below t, length-append (p.buffers t) (q ∷ [])))
                | inr e ↦ rw e (omega (arith, v.below t))
              ])
              h)
        | inr f ↦ rw f h
      ])
]

pub deliver_queue :
    (p : Provider) (t : EventType) (batch : Bool) (items : List Fields)
    → (deliver p t batch items).queue ≡ p.queue
unfolding deliver
deliver_queue p t batch items = ground arith

send_items_queue :
    (p : Provider) (t : EventType) (items : List Fields) → (send_items p t items).queue ≡ p.queue
send_items_queue p t [] = refl
send_items_queue p t (x ∷ []) = deliver_queue p t false (x ∷ [])
send_items_queue p t (x ∷ y ∷ items) = deliver_queue p t true (x ∷ y ∷ items)

pub flush_type_queue : (p : Provider) (t : EventType) → (flush_type p t).queue ≡ p.queue
unfolding flush_type
flush_type_queue p t =
    send_items_queue (record p { buffers = set_buffer t [] p.buffers }) t (p.buffers t)

-- A capture leaves the queue and the settings alone.
pub capture_prepared_rest :
    (p : Provider) (t : EventType) (q : Fields)
    → ((capture_prepared p t q).queue ≡ p.queue) × ((capture_prepared p t q).settings ≡ p.settings)
unfolding capture_prepared
capture_prepared_rest p t q = elim (Bool-cases (is_direct p t)) [
  | inl d ↦ rw d (deliver_queue p t false (q ∷ []), (deliver_fields p t false (q ∷ [])).2)
  | inr d ↦
      let items = p.buffers t ++ q ∷ [] in
      let buffered : Provider = record p { buffers = set_buffer t items p.buffers } in
      rw d (elim (Bool-cases (leb p.batch_size (length items))) [
        | inl f ↦ rw f (flush_type_queue buffered t, (flush_type_fields buffered t).1)
        | inr f ↦ rw f (refl, refl)
      ])
]
