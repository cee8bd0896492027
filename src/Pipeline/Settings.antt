-- ===== src/Pipeline/Settings.antt =====
-- providers/duckbug/provider.go: the settings of a provider over its history.
use duckbug_go.Base.{
  ltb, Bool, true, false, Option, none, some, List, [], ◌∷◌, length, ◌≡◌, refl, ◌∙◌, inl, inr,
  Bool-cases, if◌then◌else◌,
}
use duckbug_go.Value.{Fields}
use duckbug_go.Core.Types.{EventType, errors, logs}
use duckbug_go.Provider.State.{
  Provider, prepared, accept, enqueue, capture_prepared, capture_event, receive, flush_type,
  flush_buffers,
}
use duckbug_go.Provider.State.Bounds.{flush_type_fields, capture_prepared_rest}
use duckbug_go.Provider.State.Run.{Op, capture, take, tick, take_first, step}
use duckbug_go.Provider.State.Run.History.{dropped_fields}

enqueue-settings :
    (p : Provider) (t : EventType) (x : Fields) → (enqueue p t x).settings ≡ p.settings
unfolding enqueue
enqueue-settings p t x = elim (Bool-cases (ltb (length p.queue) p.queue_size)) [
  | inl e ↦ rw e refl
  | inr e ↦ rw e (dropped_fields p t x).3
]

either-settings :
    (p : Provider) (b : Bool) (q q' : Provider)
    → q.settings ≡ p.settings
    → q'.settings ≡ p.settings
    → (if b then q else q').settings ≡ p.settings
either-settings p true q q' h i = h
either-settings p false q q' h i = i

accept-settings :
    (p : Provider) (t : EventType) (o : Option Fields) → (accept p t o).settings ≡ p.settings
accept-settings p t none = refl
accept-settings p t (some x) =
    either-settings p p.async (enqueue p t x) (capture_prepared p t x) (enqueue-settings p t x)
      (capture_prepared_rest p t x).1

take_first-settings :
    (p : Provider) (q : List (EventType × Fields)) → (take_first p q).settings ≡ p.settings
unfolding take_first receive
take_first-settings p [] = refl
take_first-settings p ((t, x) ∷ rest) = (capture_prepared_rest (record p { queue = rest }) t x).1

-- No operation changes the settings.
pub step-settings : (p : Provider) (op : Op) → (step p op).settings ≡ p.settings
unfolding step capture_event flush_buffers
step-settings p (capture minted e) = accept-settings p e.type (prepared p minted e)
step-settings p take = take_first-settings p p.queue
step-settings p tick =
    (flush_type_fields (flush_type p errors) logs).1 ∙ (flush_type_fields p errors).1
