-- ===== src/Integrations/Zerolog.antt =====
-- integrations/zerolog/writer.go: which lines of a log reach the client, and as what. The JSON decoder, the
-- parser of times and the conversion of a floating point number to `int64` are parameters, as are the names
-- of zerolog's fields, which a program may set. A time is in nanoseconds since 1970; none is the zero time.
pub mod Writer
pub mod Times
pub mod Levels
pub mod Writes
use duckbug_go.Base.{
  ℕ, ◌+◌, ◌*◌, ◌^◌, ◌-◌, leb, String, str_eq, Bool, true, false, Option, none, some, ◌||◌, ◌==◌,
  if◌then◌else◌,
}
use duckbug_go.Base.Int.{ℤ, pos, negsuc, ltb_ℤ, pos_part, neg_part}
use duckbug_go.Text.{Unicode, trim_space, to_lower}
use duckbug_go.Value.{Value, str, int, float, Fields, lookup, delete, non_empty}
use duckbug_go.Value

-- The values of `zerolog.Level`.
abbrev pub trace_level : ℤ
trace_level = negsuc 0

abbrev pub debug_level : ℤ
debug_level = pos 0

abbrev pub info_level : ℤ
info_level = pos 1

abbrev pub warn_level : ℤ
warn_level = pos 2

abbrev pub error_level : ℤ
error_level = pos 3

abbrev pub fatal_level : ℤ
fatal_level = pos 4

abbrev pub panic_level : ℤ
panic_level = pos 5

abbrev pub no_level : ℤ
no_level = pos 6

-- What is not the writer's.
pub record Surroundings : Type 0 where
  pub message_field : String
  pub level_field : String
  pub time_field : String
  pub parse_time : String → Option ℤ
  pub to_int64 : ℕ → ℤ

abbrev pub eq_ℤ : ℤ → ℤ → Bool
eq_ℤ a b = pos_part a + neg_part b == pos_part b + neg_part a

abbrev pub text_of : Option Value → String
text_of (some (str s)) = s
text_of _ = ""

-- `parseLevel`.
unfoldable pub parse_level : ⦃u : Unicode⦄ → Value → ℤ
parse_level v =
    let name = to_lower (trim_space (text_of (some v))) in
    if str_eq name "trace"
    then trace_level
    else if str_eq name "debug"
    then debug_level
    else if str_eq name "info"
    then info_level
    else if str_eq name "warn" || str_eq name "warning"
    then warn_level
    else if str_eq name "error"
    then error_level
    else if str_eq name "fatal"
    then fatal_level
    else if str_eq name "panic"
    then panic_level
    else no_level

-- `-value` where the value is negative, as an `int64`: the least one is its own negation.
abbrev pub magnitude : ℤ → ℤ
magnitude (pos n) = pos n
magnitude (negsuc n) = if leb (2 ^ 63 - 1) n then negsuc n else pos (n + 1)

abbrev pub scale : ℕ → ℤ → ℤ
scale k (pos n) = pos (n * k)
scale k (negsuc n) = if leb k 0 then pos 0 else negsuc ((n + 1) * k - 1)

-- `abs >= limit`.
abbrev pub reaches : ℕ → ℤ → Bool
reaches limit (pos n) = leb limit n
reaches limit (negsuc n) = false

unfoldable pub unix_from_number : ℤ → ℤ
unix_from_number value =
    let abs = magnitude value in
    if reaches (10 ^ 18) abs
    then value
    else if reaches (10 ^ 15) abs
    then scale (10 ^ 3) value
    else if reaches (10 ^ 12) abs
    then scale (10 ^ 6) value
    else scale (10 ^ 9) value

-- `parseTime`.
unfoldable pub parse_time_value : Surroundings → Value → Option ℤ
unfolding unix_from_number
parse_time_value w (str s) = w.parse_time s
parse_time_value w (float x) = some (unix_from_number (w.to_int64 x))
parse_time_value w (int i) = some (unix_from_number i)
parse_time_value w _ = none

-- A decoded line.
pub record Line : Type 0 where
  pub message : String
  pub details : Option Fields
  pub level : ℤ
  pub at : Option ℤ

-- The level is `zerolog.DebugLevel`, the zero value, unless the line has one.
abbrev pub level_of : ⦃u : Unicode⦄ → Option Value → ℤ
level_of none = pos 0
level_of (some v) = parse_level v

abbrev pub time_of : Surroundings → Option Value → Option ℤ
time_of w none = none
time_of w (some v) = parse_time_value w v

module _ ⦃u : Unicode⦄ (w : Surroundings) where
  -- `decodePayload`, at what `json.Unmarshal` makes of a line that is not blank.
  unfoldable pub decode_payload : Option Fields → Option Line
  decode_payload none = none
  decode_payload (some payload) =
      let unmessaged = delete w.message_field payload in
      let unleveled = delete w.level_field unmessaged in
      some (record {
        message = text_of (lookup w.message_field payload);
        details = non_empty (delete w.time_field unleveled);
        level = level_of (lookup w.level_field unmessaged);
        at = time_of w (lookup w.time_field unleveled);
      })

-- `normalizeLevel`.
unfoldable pub normalize_zerolog_level : ℤ → String
normalize_zerolog_level level =
    if eq_ℤ level trace_level || eq_ℤ level debug_level
    then "DEBUG"
    else if eq_ℤ level info_level
    then "INFO"
    else if eq_ℤ level warn_level
    then "WARN"
    else if eq_ℤ level error_level
    then "ERROR"
    else if eq_ℤ level fatal_level || eq_ℤ level panic_level
    then "FATAL"
    else "INFO"

-- The arguments of the client's `LogContextAt`.
pub record Entry : Type 0 where
  pub at : Option ℤ
  pub level : String
  pub message : String
  pub details : Option Fields

abbrev pub is_no_level : ℤ → Bool
is_no_level level = eq_ℤ level no_level

abbrev pub effective_level : ℤ → Line → ℤ
effective_level level l = if is_no_level level then l.level else level

abbrev entry_of : ℤ → ℤ → Line → Option Entry
entry_of min_level level l =
    if ltb_ℤ (effective_level level l) min_level
    then none
    else some (record {
      at = l.at;
      level = normalize_zerolog_level (effective_level level l);
      message = l.message;
      details = l.details;
    })

abbrev pub capture_line : ℤ → ℤ → Option Line → Option Entry
capture_line min_level level none = none
capture_line min_level level (some l) = entry_of min_level level l

-- `capture`: none if the line is left out.
unfoldable pub capture : ⦃u : Unicode⦄ → Surroundings → ℤ → ℤ → Option Fields → Option Entry
unfolding normalize_zerolog_level decode_payload
capture w min_level level payload = capture_line min_level level (decode_payload w payload)
