-- ===== src/Integrations/Zerolog/Times.antt =====
-- integrations/zerolog/writer.go: how a numeric time is read.
use duckbug_go.Base.{ℕ, ◌*◌, ◌^◌, ◌≤◌, ◌<◌, ◌≡◌, arith}
use duckbug_go.Base.Int.{pos}
use duckbug_go.Integrations.Zerolog.{unix_from_number}

-- A time from September 2001 on, as long as its nanoseconds fit in an `int64`, is read as the same instant,
-- whether the line gives it in seconds, milliseconds, microseconds or nanoseconds.
pub unix_from_number-units :
    (s : ℕ)
    → 10 ^ 9 ≤ s
    → s * 10 ^ 9 < 2 ^ 63
    → (unix_from_number (pos s) ≡ pos (s * 10 ^ 9))
      × (unix_from_number (pos (s * 10 ^ 3)) ≡ pos (s * 10 ^ 9))
      × (unix_from_number (pos (s * 10 ^ 6)) ≡ pos (s * 10 ^ 9))
      × (unix_from_number (pos (s * 10 ^ 9)) ≡ pos (s * 10 ^ 9))
unfolding unix_from_number
unix_from_number-units s h k = (ground arith, ground arith, ground arith, ground arith)
