-- ===== src/Integrations/Slog/Groups.antt =====
-- integrations/slog/handler.go: the order of WithAttrs and WithGroup, and what is masked in a record's event.
use duckbug_go.Base.{
  String, Bool, true, false, Option, none, some, List, [], ◌≡◌, refl, if◌then◌else◌, All,
}
use duckbug_go.Text.{Unicode}
use duckbug_go.Core.Types.{logs}
use duckbug_go.Core.Util.{Reflection}
use duckbug_go.Core.Level.{slog_level}
use duckbug_go.Core.Duck.{Duck, Circumstances, ProviderCall}
use duckbug_go.Core.Duck.Dispatch.{log_context_at}
use duckbug_go.Core.Duck.Sanitized.{IsPlainCall, log_payload-AllSafe}
use duckbug_go.Core.Duck.Delivered.{IsSafeCall, dispatch-IsSafeCall}
use duckbug_go.Integrations.Slog.Attrs.{SlogValue, Target, ◌>>=◌}
use duckbug_go.Integrations.Slog.{
  Next, Record, Handler, Handled, clone, sdk_enabled, payload_of, details_of, forward, with_attrs,
  with_group, handle,
}

module _ {H : Type 0} where
  -- The calls of the providers, unless handling panics.
  abbrev pub calls_of : Option (Handled H) → Option (List ProviderCall)
  calls_of none = none
  calls_of (some x) = some x.calls

  same_calls :
      (b : Bool) (o : Option Target) (f : Target → List ProviderCall) (x y : Option (H × Record))
      → calls_of (
          if b
          then (o >>= λ t. some (record { calls = f t; forwarded = x }))
          else some (record { calls = []; forwarded = x }))
        ≡ calls_of (
            if b
            then (o >>= λ t. some (record { calls = f t; forwarded = y }))
            else some (record { calls = []; forwarded = y }))
  same_calls false o f x y = refl
  same_calls true none f x y = refl
  same_calls true (some t) f x y = refl

  -- The event of a record does not depend on whether attributes were added to the handler before a group was
  -- opened or after.
  pub with_attrs-with_group :
      ⦃u : Unicode⦄ ⦃f : Reflection⦄ ⦃n : Next H⦄ (c : Circumstances) (r : Record) (name : String)
      (attrs : List (String × SlogValue)) (h : Handler H)
      → calls_of (handle c r (with_attrs attrs (with_group name h)))
        ≡ calls_of (handle c r (with_group name (with_attrs attrs h)))
  unfolding handle with_attrs with_group clone
  with_attrs-with_group c r name attrs h =
      same_calls (sdk_enabled h.duck r.level h.min_level) _ _ _ _

  abbrev HandledSafe : ⦃u : Unicode⦄ → Duck → Option (Handled H) → Type 0
  HandledSafe d none = Unit
  HandledSafe d (some x) = All (IsSafeCall d.pond) x.calls

  handled-Safe :
      ⦃u : Unicode⦄ (d : Duck) (b : Bool) (o : Option Target) (f : Target → List ProviderCall)
      (x : Option (H × Record))
      → ((t : Target) → All (IsSafeCall d.pond) (f t))
      → HandledSafe d (
          if b
          then (o >>= λ t. some (record { calls = f t; forwarded = x }))
          else some (record { calls = []; forwarded = x }))
  handled-Safe d false o f x h = tt
  handled-Safe d true none f x h = tt
  handled-Safe d true (some t) f x h = h t

  -- Whatever the attributes, every entry but the breadcrumbs of an event that the handler hands to the providers
  -- holds the mask at every sensitive key, at any depth, provided the maps of the scope and of the request are
  -- JSON-like data.
  pub handle-HandledSafe :
      ⦃u : Unicode⦄ ⦃f : Reflection⦄ (d : Duck) (c : Circumstances) (r : Record) (h : Handler H)
      → h.duck ≡ some d
      → IsPlainCall c d
      → HandledSafe d (handle c r h)
  unfolding handle log_context_at
  handle-HandledSafe d c r h e plain = rw e (
      handled-Safe d (sdk_enabled (some d) r.level h.min_level) (payload_of h r)
        (λ t. log_context_at (some d) c r.time (slog_level r.level) r.message (details_of t))
        (forward h.next r)
        λ t.
          dispatch-IsSafeCall d.pond d logs _
            (log_payload-AllSafe c r.time (slog_level r.level) r.message (details_of t) d plain))
