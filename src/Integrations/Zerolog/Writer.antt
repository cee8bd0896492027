-- ===== src/Integrations/Zerolog/Writer.antt =====
-- integrations/zerolog/writer.go: the writer, its options, and what a write does. A line is a text, as zerolog
-- writes it; its size in bytes is that of its UTF-8.
use Prim.Native.Char.{Char, code}
use duckbug_go.Base.{
  ℕ, ◌+◌, ◌^◌, ◌/◌, leb, String, str_eq, Option, none, some, List, [], ◌∷◌, if◌then◌else◌,
}
use duckbug_go.Base.Int.{ℤ, pos, negsuc}
use duckbug_go.Text.{Unicode, trim_space}
use duckbug_go.Value.{Value, Fields}
use duckbug_go.Core.Level.{any_text}
use duckbug_go.Core.Util.{Reflection}
use duckbug_go.Core.Duck.{Duck, Circumstances, ProviderCall}
use duckbug_go.Core.Duck.Dispatch.{log_context_at}
use duckbug_go.Integrations.Zerolog.{Surroundings, Entry, capture, warn_level, no_level}

-- What a write returns: the number of bytes, and an error.
abbrev pub Result : Type 0
Result = ℕ × Option String

-- An `io.Writer`, with its `WriteLevel` if it is a `zerolog.LevelWriter`.
pub record Sink : Type 0 where
  pub write : String → Result
  pub write_level : Option (ℤ → String → Result)

pub record Writer : Type 0 where
  pub duck : Option Duck
  pub next : Option Sink
  pub next_level : Option (ℤ → String → Result)
  pub min_lvl : ℤ

abbrev level_writer : Option Sink → Option (ℤ → String → Result)
level_writer none = none
level_writer (some s) = s.write_level

unfoldable pub apply_options : List (Option (Writer → Writer)) → Writer → Writer
apply_options [] w = w
apply_options (none ∷ options) w = apply_options options w
apply_options (some option ∷ options) w = apply_options options (option w)

-- `NewWriter`.
unfoldable pub new_writer : Option Duck → Option Sink → List (Option (Writer → Writer)) → Writer
unfolding apply_options
new_writer duck next options =
    apply_options options
      (record { duck = duck; next = next; next_level = level_writer next; min_lvl = warn_level })

unfoldable pub with_min_level : ℤ → Writer → Writer
with_min_level level w = record w { min_lvl = level }

abbrev rune_size : Char → ℕ
rune_size c =
    if leb (code c) 0x7f
    then 1
    else if leb (code c) 0x7ff
    then 2
    else if leb (code c) 0xffff
    then 3
    else 4

-- `len(payload)`.
unfoldable pub size : String → ℕ
size String.[] = 0
size (String.◌∷◌ c s) = rune_size c + size s

-- `json.Unmarshal` of a line that is not blank.
abbrev pub unmarshal_line : (String → Option Fields) → String → Option Fields
unmarshal_line decode raw =
    let trimmed = trim_space raw in if str_eq trimmed "" then none else decode trimmed

-- `at.UnixMilli()`.
abbrev pub unix_milli : Option ℤ → Option ℤ
unix_milli none = none
unix_milli (some (pos n)) = some (pos (n / 10 ^ 6))
unix_milli (some (negsuc n)) = some (negsuc (n / 10 ^ 6))

abbrev pub details_of : Option Fields → Option Value
details_of none = none
details_of (some fs) = some (Value.map fs)

-- What a write makes the client do, and what it returns.
pub record Written : Type 0 where
  pub calls : List ProviderCall
  pub result : Result

module _ ⦃u : Unicode⦄ ⦃r : Reflection⦄ (around : Surroundings)
    (decode : String → Option Fields) where
  -- The context of a line is the background's, which has no request.
  abbrev pub log_entry : Option Duck → Circumstances → Option Entry → List ProviderCall
  log_entry duck c none = []
  log_entry duck c (some e) =
      log_context_at duck (record c { request = none }) (unix_milli e.at) (any_text e.level)
        e.message (details_of e.details)

  -- `capture` of a writer that is not nil.
  unfoldable pub capture_raw : Circumstances → ℤ → String → Writer → List ProviderCall
  unfolding capture
  capture_raw c level raw w = elim w.duck [
    | none ↦ []
    | some d ↦ log_entry (some d) c (capture around w.min_lvl level (unmarshal_line decode raw))
  ]

  abbrev write_next : Option Sink → String → Result
  write_next none payload = (size payload, none)
  write_next (some s) payload = s.write payload

  -- `Write`.
  unfoldable pub write : Circumstances → String → Writer → Written
  unfolding capture_raw size
  write c payload w = record {
    calls = capture_raw c no_level payload w;
    result = write_next w.next payload;
  }

  abbrev level_next : Option (ℤ → String → Result) → Option Sink → ℤ → String → Result
  level_next none next level payload = write_next next payload
  level_next (some f) next level payload = f level payload

  -- `WriteLevel`.
  unfoldable pub write_level : Circumstances → ℤ → String → Writer → Written
  unfolding capture_raw size
  write_level c level payload w = record {
    calls = capture_raw c level payload w;
    result = level_next w.next_level w.next level payload;
  }
