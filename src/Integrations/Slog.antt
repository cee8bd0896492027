-- ===== src/Integrations/Slog.antt =====
-- integrations/slog/handler.go: the handler of log/slog. The next handler is any type with the operations of
-- `slog.Handler`.
pub mod Attrs
pub mod Total
pub mod Groups
use duckbug_go.Base.{
  String, str_eq, Bool, true, false, not, ◌&&◌, ◌||◌, Option, none, some, List, [], ◌∷◌, ◌++◌,
  if◌then◌else◌,
}
use duckbug_go.Base.Int.{ℤ, pos, ltb_ℤ}
use duckbug_go.Text.{Unicode, trim_space}
use duckbug_go.Value.{Value, Fields, end, field, is_empty}
use duckbug_go.Value
use duckbug_go.Core.Util.{Reflection}
use duckbug_go.Core.Level.{slog_level}
use duckbug_go.Core.Duck.{Duck, Circumstances, ProviderCall}
use duckbug_go.Core.Duck.Dispatch.{log_context_at}
use duckbug_go.Integrations.Slog.Attrs.{SlogValue, Target, ◌>>=◌, add_attrs}

-- What the handler calls of the next handler, but for `Handle`.
pub record Next (H : Type 0) : Type 0 where
  pub enabled : H → ℤ → Bool
  pub attach : List (String × SlogValue) → H → H
  pub open_group : String → H → H

-- A record: its level, its time unless that is zero, its message and its attributes.
pub record Record : Type 0 where
  pub level : ℤ
  pub time : Option ℤ
  pub message : String
  pub attrs : List (String × SlogValue)

pub record Handler (H : Type 0) : Type 0 where
  pub duck : Option Duck
  pub next : Option H
  pub attrs : List (String × SlogValue)
  pub groups : List String
  pub min_level : ℤ

-- What `Handle` does: the calls of the providers, and the record that the next handler is handed.
pub record Handled (H : Type 0) : Type 0 where
  pub calls : List ProviderCall
  pub forwarded : Option (H × Record)

abbrev level_info : ℤ
level_info = pos 0

-- `level >= minLvl`, at a client that is not nil.
abbrev pub sdk_enabled : Option Duck → ℤ → ℤ → Bool
sdk_enabled none level min_level = false
sdk_enabled (some d) level min_level = not (ltb_ℤ level min_level)

-- The details: the payload, unless it is empty.
abbrev pub details_of : Target → Option Value
details_of none = none
details_of (some end) = none
details_of (some (field k v fs)) = some (Value.map (field k v fs))

module _ {H : Type 0} where
  -- `NewHandler`, with the loop over its options, of which some may be nil.
  unfoldable pub apply_handler_options :
      List (Option (Handler H → Handler H)) → Handler H → Handler H
  apply_handler_options [] h = h
  apply_handler_options (none ∷ options) h = apply_handler_options options h
  apply_handler_options (some option ∷ options) h = apply_handler_options options (option h)

  unfoldable pub new_handler :
      Option Duck → Option H → List (Option (Handler H → Handler H)) → Handler H
  unfolding apply_handler_options
  new_handler duck next options =
      apply_handler_options options
        (record { duck = duck; next = next; attrs = []; groups = []; min_level = pos 4 })

  unfoldable pub with_min_level : ℤ → Handler H → Handler H
  with_min_level level h = record h { min_level = level }

  -- The first argument is `UnmarshalText` of a level.
  unfoldable pub with_min_level_string : (String → Option ℤ) → String → Handler H → Handler H
  with_min_level_string unmarshal level h =
      let text = trim_space level in
      if str_eq text "" then record h { min_level = level_info } else elim (unmarshal text) [
        | none ↦ record h { min_level = level_info }
        | some min_level ↦ record h { min_level = min_level }
      ]

  -- `clone`, of a handler that is not nil.
  unfoldable pub clone : Handler H → Handler H
  clone h = record {
    duck = h.duck;
    next = h.next;
    attrs = h.attrs;
    groups = h.groups;
    min_level = h.min_level;
  }

  abbrev next_map : (H → H) → Option H → Option H
  next_map f none = none
  next_map f (some n) = some (f n)

  unfoldable pub with_attrs : ⦃n : Next H⦄ → List (String × SlogValue) → Handler H → Handler H
  unfolding clone
  with_attrs ⦃n⦄ attrs h =
      let cloned = clone h in
      record cloned { attrs = cloned.attrs ++ attrs; next = next_map (n.attach attrs) h.next }

  unfoldable pub with_group : ⦃n : Next H⦄ → String → Handler H → Handler H
  unfolding clone
  with_group ⦃n⦄ name h =
      let cloned = clone h in
      record cloned {
        groups = cloned.groups ++ name ∷ [];
        next = next_map (n.open_group name) h.next;
      }

  unfoldable pub enabled : ⦃n : Next H⦄ → ℤ → Handler H → Bool
  enabled ⦃n⦄ level h = elim h.next [
    | none ↦ sdk_enabled h.duck level h.min_level
    | some next ↦ n.enabled next level || sdk_enabled h.duck level h.min_level
  ]

  -- The map of the handler's and the record's attributes, or a panic.
  unfoldable pub payload_of : Handler H → Record → Option Target
  unfolding add_attrs
  payload_of h r = do own ← add_attrs h.groups h.attrs (some end); add_attrs h.groups r.attrs own

  abbrev pub forward : Option H → Record → Option (H × Record)
  forward none r = none
  forward (some n) r = some (n, r)

  -- `Handle`, or a panic.
  unfoldable pub handle :
      ⦃u : Unicode⦄ → ⦃r : Reflection⦄ → Circumstances → Record → Handler H → Option (Handled H)
  unfolding payload_of log_context_at
  handle c r h =
      if sdk_enabled h.duck r.level h.min_level
      then (payload_of h r >>= λ payload. some (record {
        calls = log_context_at h.duck c r.time (slog_level r.level) r.message (details_of payload);
        forwarded = forward h.next r;
      }))
      else some (record { calls = []; forwarded = forward h.next r })
