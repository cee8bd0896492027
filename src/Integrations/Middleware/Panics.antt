-- ===== src/Integrations/Middleware/Panics.antt =====
-- integrations/nethttp/middleware.go: what the client gets when a handler panics.
use duckbug_go.Base.{ℕ, Bool, true, false, Option, none, some, List}
use duckbug_go.Core.Transaction.{Transaction}
use duckbug_go.Core.Duck.{Duck}
use duckbug_go.Integrations.Report.{Panic}
use duckbug_go.Integrations.Tracker.{Call}
use duckbug_go.Integrations.Tracker.Status.{first_status}
use duckbug_go.Integrations.Tracker.Marks.{takes_over}
use duckbug_go.Integrations.Middleware.{Ending, returns, panics}

-- The first status of two sequences of calls.
abbrev or_else : Option ℕ → Option ℕ → Option ℕ
or_else none o = o
or_else (some code) o = some code

-- The status after a panic: the handler's, or that of the error page, unless the connection was taken over first.
abbrev pub panic_status : Option ℕ → Bool → Option ℕ
panic_status none false = some 500
panic_status o taken = o

-- How a panic ends: it goes on if it is to be repeated, and the writer is left alone; else it stops here.
abbrev pub panic_outcome : Bool → Panic → List Call → Ending × Option ℕ
panic_outcome true p cs = (panics p, first_status cs)
panic_outcome false p cs = (returns, panic_status (first_status cs) (takes_over cs))
