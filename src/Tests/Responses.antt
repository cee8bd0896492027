-- ===== src/Tests/Responses.antt =====
-- A response that is written in parts, with a limit of four bytes.
use duckbug_go.Base.{true, List, [], ◌∷◌, ◌≡◌, arith}
use duckbug_go.Base.Int.{pos}
use duckbug_go.Integrations.Tracker.{
  no_error, other_error, new_tracker, Call, writes_header, writes, writes_string, flushes, hijacks,
  calls,
}
use duckbug_go.Integrations.Tracker.Body.{view}
use duckbug_go.Integrations.Tracker.Writes.{open_log, log_calls}
use duckbug_go.Integrations.Tracker.Refines.{calls-log_calls}

abbrev pub failing : List Call
failing =
    writes_header 103
    ∷ writes_header 503
    ∷ writes (111 ∷ 111 ∷ 112 ∷ []) 3 no_error
    ∷ writes_string (115 ∷ 33 ∷ 33 ∷ []) 2 other_error
    ∷ writes_header 200
    ∷ hijacks no_error
    ∷ flushes
    ∷ []

calls-log_calls_example :
    calls failing (new_tracker true (pos 4)) ≡ view (log_calls failing (open_log (pos 4)))
calls-log_calls_example =
    calls-log_calls (pos 4) failing (tt, (tt, (omega arith, (omega arith, (tt, (tt, (tt, tt)))))))
