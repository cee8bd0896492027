-- ===== src/Core/Level.antt =====
-- core/types.go: `Level` and `NormalizeLevel`.
use duckbug_go.Base.{
  ℕ, ◌+◌, ◌-◌, ◌^◌, String, str_eq, ltb, leb, Bool, true, false, ◌||◌, if◌then◌else◌, ◌≡◌, refl,
  ◌⊎◌, inl, inr, arith, ◌≤◌, Bool-cases,
}
use duckbug_go.Base.Int.{ℤ, pos, negsuc, ltb_ℤ, ◌≤ℤ◌, pos_part, neg_part}
use duckbug_go.Text.{Unicode, trim_space, to_upper}

-- The dynamic types that `NormalizeLevel` tells apart. `unsigned` is a value of an unsigned type; `any_text`
-- is a value of any other type, by what `fmt.Sprint` makes of it.
pub data LevelInput : Type 0 where
  level : String → LevelInput
  slog_level : ℤ → LevelInput
  signed : ℤ → LevelInput
  unsigned : ℕ → LevelInput
  any_text : String → LevelInput

abbrev pub level_debug : String
level_debug = "DEBUG"

abbrev pub level_info : String
level_info = "INFO"

abbrev pub level_warn : String
level_warn = "WARN"

abbrev pub level_error : String
level_error = "ERROR"

abbrev pub level_fatal : String
level_fatal = "FATAL"

-- `a <= b` on integers.
abbrev leb_ℤ : ℤ → ℤ → Bool
leb_ℤ a b = leb (pos_part a + neg_part b) (pos_part b + neg_part a)

-- The case of `slog.Level`: DEBUG is -4, WARN is 4 and ERROR is 8.
unfoldable pub from_slog_level : ℤ → String
from_slog_level n =
    if leb_ℤ n (negsuc 3)
    then level_debug
    else if ltb_ℤ n (pos 4)
    then level_info
    else if ltb_ℤ n (pos 8)
    then level_warn
    else if leb_ℤ (pos 12) n
    then level_fatal
    else level_error

-- `slog.Level(n)` at an unsigned number of 64 bits.
abbrev to_int64 : ℕ → ℤ
to_int64 n = if ltb n (2 ^ 63) then pos n else negsuc (2 ^ 64 - n - 1)

-- The switch over the text in upper case.
unfoldable pub from_level_name : String → String
from_level_name raw =
    if str_eq raw "DEBUG"
    then level_debug
    else if str_eq raw "INFO" || str_eq raw "NOTICE"
    then level_info
    else if str_eq raw "WARN" || str_eq raw "WARNING"
    then level_warn
    else if str_eq raw "ERROR"
    then level_error
    else if str_eq raw "FATAL"
        || str_eq raw "CRITICAL"
        || str_eq raw "ALERT"
        || str_eq raw "EMERGENCY"
    then level_fatal
    else level_info

unfoldable pub normalize_level : ⦃u : Unicode⦄ → LevelInput → String
unfolding from_slog_level from_level_name
normalize_level (level s) = if str_eq s "" then level_info else s
normalize_level (slog_level n) = from_slog_level n
normalize_level (signed n) = from_slog_level n
normalize_level (unsigned n) = from_slog_level (to_int64 n)
normalize_level (any_text s) = from_level_name (to_upper (trim_space s))

-- The severity order of the declared levels.
unfoldable pub severity : String → ℕ
severity s =
    if str_eq s "DEBUG"
    then 0
    else if str_eq s "INFO"
    then 1
    else if str_eq s "WARN"
    then 2
    else if str_eq s "ERROR"
    then 3
    else 4

-- One of the five declared levels.
abbrev pub IsDeclared : String → Type 0
IsDeclared s =
    (s ≡ level_debug) ⊎ (s ≡ level_info) ⊎ (s ≡ level_warn) ⊎ (s ≡ level_error) ⊎ (s ≡ level_fatal)

slog_rank : Bool → Bool → Bool → Bool → ℕ
slog_rank true _ _ _ = 0
slog_rank false true _ _ = 1
slog_rank false false true _ = 2
slog_rank false false false true = 4
slog_rank false false false false = 3

severity-branches :
    (a b c d : Bool)
    → severity (
        if a
        then level_debug
        else if b
        then level_info
        else if c
        then level_warn
        else if d
        then level_fatal
        else level_error)
      ≡ slog_rank a b c d
unfolding severity slog_rank
severity-branches true b c d = refl
severity-branches false true c d = refl
severity-branches false false true d = refl
severity-branches false false false true = refl
severity-branches false false false false = refl

slog_rank_mono :
    (m n : ℤ)
    → m ≤ℤ n
    → slog_rank (leb_ℤ m (negsuc 3)) (ltb_ℤ m (pos 4)) (ltb_ℤ m (pos 8)) (leb_ℤ (pos 12) m)
      ≤ slog_rank (leb_ℤ n (negsuc 3)) (ltb_ℤ n (pos 4)) (ltb_ℤ n (pos 8)) (leb_ℤ (pos 12) n)
unfolding slog_rank
slog_rank_mono m n h = ground arith

-- A higher `slog` level never gets a lower severity.
pub severity-slog_level :
    ⦃u : Unicode⦄ (m n : ℤ)
    → m ≤ℤ n
    → severity (normalize_level (slog_level m)) ≤ severity (normalize_level (slog_level n))
unfolding normalize_level
severity-slog_level m n h =
    rw
      (
        severity-branches (leb_ℤ m (negsuc 3)) (ltb_ℤ m (pos 4)) (ltb_ℤ m (pos 8))
            (leb_ℤ (pos 12) m),
        severity-branches (leb_ℤ n (negsuc 3)) (ltb_ℤ n (pos 4)) (ltb_ℤ n (pos 8))
            (leb_ℤ (pos 12) n),
      )
      (slog_rank_mono m n h)

from_slog_level-IsDeclared : (n : ℤ) → IsDeclared (from_slog_level n)
unfolding from_slog_level
from_slog_level-IsDeclared n = ground arith

from_level_name-IsDeclared : (s : String) → IsDeclared (from_level_name s)
unfolding from_level_name
from_level_name-IsDeclared s = ground arith

-- A typed level that is not empty is kept; everything else becomes one of the five declared levels.
pub normalize_level-IsDeclared :
    ⦃u : Unicode⦄ (x : LevelInput)
    → IsDeclared (normalize_level x)
      ⊎ ((s : String) × (x ≡ level s) × (normalize_level x ≡ s) × (str_eq s "" ≡ false))
unfolding normalize_level
normalize_level-IsDeclared (level s) = elim (Bool-cases (str_eq s "")) [
  | inl e ↦ inl (inr (inl (rw e)))
  | inr e ↦ inr (s, refl, rw e, e)
]
normalize_level-IsDeclared (slog_level n) = inl (from_slog_level-IsDeclared n)
normalize_level-IsDeclared (signed n) = inl (from_slog_level-IsDeclared n)
normalize_level-IsDeclared (unsigned n) = inl (from_slog_level-IsDeclared (to_int64 n))
normalize_level-IsDeclared (any_text s) = inl (from_level_name-IsDeclared (to_upper (trim_space s)))
