-- ===== src/Integrations/Zap.antt =====
-- integrations/zap/core.go: the core of zap. A field is what `AddTo` writes to the encoder's map; the next core is
-- any type with the operations of `zapcore.Core`.
pub mod Writes
use duckbug_go.Base.{
  ℕ, String, str_eq, Bool, true, false, not, ◌&&◌, ◌||◌, ◌==◌, Option, none, some, List, [], ◌∷◌,
  ◌++◌, if◌then◌else◌,
}
use duckbug_go.Base.Int.{ℤ, pos, negsuc, ltb_ℤ}
use duckbug_go.Text.{Unicode}
use duckbug_go.Value.{Value, str, Fields, end, field, insert}
use duckbug_go.Value
use duckbug_go.Core.Util.{Reflection}
use duckbug_go.Core.Level.{any_text}
use duckbug_go.Core.Duck.{Duck, Circumstances, ProviderCall}
use duckbug_go.Core.Duck.Dispatch.{log_context_at}

abbrev pub Field : Type 0
Field = Fields → Fields

-- What the core calls of the next core, but for `Write` and `Sync`.
pub record Next (N : Type 0) : Type 0 where
  pub enabled : N → ℤ → Bool
  pub attach : List Field → N → N
  pub sync : N → Option String

-- An entry; the caller is its trimmed path, if it is defined.
pub record Entry : Type 0 where
  pub level : ℤ
  pub time : Option ℤ
  pub logger_name : String
  pub message : String
  pub caller : Option String
  pub stack : String

pub record Core (N : Type 0) : Type 0 where
  pub duck : Option Duck
  pub next : Option N
  pub fields : List Field
  pub min_level : ℤ

-- What `Write` does: the calls of the providers, and what the next core is handed.
pub record Written (N : Type 0) : Type 0 where
  pub calls : List ProviderCall
  pub forwarded : Option (N × Entry × List Field)

-- `level >= minLvl`, at a client that is not nil.
abbrev pub sdk_enabled : Option Duck → ℤ → ℤ → Bool
sdk_enabled none level min_level = false
sdk_enabled (some d) level min_level = not (ltb_ℤ level min_level)

-- The levels of zapcore run from Debug, -1, to Fatal, 5.
unfoldable pub normalize_zap_level : ℤ → String
normalize_zap_level (negsuc n) = if n == 0 then "DEBUG" else "INFO"
normalize_zap_level (pos n) =
    if n == 0
    then "INFO"
    else if n == 1
    then "WARN"
    else if n == 2 || n == 3
    then "ERROR"
    else if n == 4 || n == 5
    then "FATAL"
    else "INFO"

unfoldable pub add_fields : List Field → Fields → Fields
add_fields [] m = m
add_fields (f ∷ fields) m = add_fields fields (f m)

abbrev put_named : String → String → Fields → Fields
put_named key s m = if str_eq s "" then m else insert key (str s) m

abbrev put_caller : Option String → Fields → Fields
put_caller none m = m
put_caller (some path) m = insert "caller" (str path) m

-- `fieldsToMap`.
unfoldable pub fields_to_map : List Field → List Field → Entry → Fields
unfolding add_fields
fields_to_map inherited fields e = put_named "stacktrace" e.stack (
    put_caller e.caller
      (put_named "logger" e.logger_name (add_fields fields (add_fields inherited end))))

abbrev pub payload_of : Fields → Option Value
payload_of end = none
payload_of (field k v fs) = some (Value.map (field k v fs))

module _ {N : Type 0} where
  -- The loop over the options, of which some may be nil.
  unfoldable pub apply_core_options : List (Option (Core N → Core N)) → Core N → Core N
  apply_core_options [] c = c
  apply_core_options (none ∷ options) c = apply_core_options options c
  apply_core_options (some option ∷ options) c = apply_core_options options (option c)

  -- The default is `zapcore.WarnLevel`.
  unfoldable pub new_core : Option Duck → Option N → List (Option (Core N → Core N)) → Core N
  unfolding apply_core_options
  new_core duck next options =
      apply_core_options options
        (record { duck = duck; next = next; fields = []; min_level = pos 1 })

  unfoldable pub with_min_level : ℤ → Core N → Core N
  with_min_level level c = record c { min_level = level }

  -- `clone`, of a core that is not nil.
  unfoldable pub clone : Core N → Core N
  clone c = record { duck = c.duck; next = c.next; fields = c.fields; min_level = c.min_level }

  abbrev next_map : (N → N) → Option N → Option N
  next_map f none = none
  next_map f (some n) = some (f n)

  -- `With`.
  unfoldable pub with_fields : ⦃n : Next N⦄ → List Field → Core N → Core N
  unfolding clone
  with_fields ⦃n⦄ fields c =
      let cloned = clone c in
      record cloned {
        fields = cloned.fields ++ fields;
        next = next_map (n.attach fields) cloned.next;
      }

  unfoldable pub enabled : ⦃n : Next N⦄ → ℤ → Core N → Bool
  enabled ⦃n⦄ level c = elim c.next [
    | none ↦ sdk_enabled c.duck level c.min_level
    | some next ↦ n.enabled next level || sdk_enabled c.duck level c.min_level
  ]

  -- `Check`, with the cores that are checked already.
  unfoldable pub check : ⦃n : Next N⦄ → Entry → Core N → List (Core N) → List (Core N)
  unfolding enabled
  check e c checked = if enabled e.level c then checked ++ c ∷ [] else checked

  abbrev pub forward : Option N → Entry → List Field → Option (N × Entry × List Field)
  forward none e fields = none
  forward (some n) e fields = some (n, e, fields)

  -- `Sync`, with the error of the next core.
  unfoldable pub sync_core : ⦃n : Next N⦄ → Core N → Option String
  sync_core ⦃n⦄ c = elim c.next [ none ↦ none | some next ↦ n.sync next ]

  -- The context of `Write` is the background's, which has no request.
  unfoldable pub write :
      ⦃u : Unicode⦄ → ⦃r : Reflection⦄ → Circumstances → Entry → List Field → Core N → Written N
  unfolding fields_to_map normalize_zap_level log_context_at
  write c e fields core = record {
    calls =
        if sdk_enabled core.duck e.level core.min_level
        then log_context_at core.duck (record c { request = none }) e.time
            (any_text (normalize_zap_level e.level)) e.message
            (payload_of (fields_to_map core.fields fields e))
        else [];
    forwarded = forward core.next e fields;
  }
