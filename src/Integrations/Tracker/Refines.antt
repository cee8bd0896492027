-- ===== src/Integrations/Tracker/Refines.antt =====
-- integrations/nethttp/response_writer.go: the calls of a handler, on a tracker and on the plain log.
use duckbug_go.Base.{
  ℕ, zero, suc, ◌+◌, ◌≤◌, ltb, Bool, true, false, ◌||◌, List, [], ◌∷◌, length, take, ◌≡◌, refl, ap,
  ◌∙◌, inl, inr, arith, Bool-cases, if◌then◌else◌, All,
}
use duckbug_go.Base.Int.{ℤ, pos_part}
use duckbug_go.Integrations.Tracker.{
  WriteError, no_error, hijack_error, unsupported_error, other_error, is_hijack_error,
  is_unsupported, is_no_error, new_tracker, capture_written, capture_string, record_write, write,
  write_string, flush_error, hijack, Call, writes_header, writes, writes_string, flushes,
  flushes_error, hijacks, call, calls,
}
use duckbug_go.Integrations.Tracker.Body.{Log, view, extend, raw-≡}
use duckbug_go.Integrations.Tracker.Writes.{
  open_log, commit, log_write, log_call, log_calls, IsBounded, set, commit_implicit-commit,
  header_at, capture_written-extend, capture_string-extend,
}

-- The log after the header of a write.
abbrev counted : ℕ → WriteError → Log → Log
counted n err l =
    if is_hijack_error err
    then l
    else record (commit 200 l) { accepted_bytes = l.accepted_bytes + n }

record_at :
    (wrote : Bool) (n : ℕ) (err : WriteError) (l : Log)
    → record_write n err (view (set wrote false l))
      ≡ view (
          set
            (counted n err (set wrote false l)).wrote_header
            false
            (counted n err (set wrote false l)))
unfolding record_write
record_at wrote n hijack_error l = refl
record_at true n no_error l = refl
record_at false n no_error l = refl
record_at true n unsupported_error l = refl
record_at false n unsupported_error l = refl
record_at true n other_error l = refl
record_at false n other_error l = refl

untouched :
    (wrote : Bool) (n : ℕ) (err : WriteError) (l : Log)
    → record_write n err (view (set wrote true l)) ≡ view (set wrote true l)
unfolding record_write
untouched wrote n hijack_error l = refl
untouched wrote n no_error l = refl
untouched wrote n unsupported_error l = refl
untouched wrote n other_error l = refl

gone :
    (n : ℕ) (b : List ℕ) (wrote : Bool) (l : Log)
    → (capture_written n b (view (set wrote true l)) ≡ view (set wrote true l))
      × (capture_string n b (view (set wrote true l)) ≡ view (set wrote true l))
gone n b wrote l = elim (Bool-cases (ltb 0 n)) [
  | inl e ↦ rw e (refl, refl)
  | inr e ↦ rw e (refl, refl)
]

stays_open :
    (wrote : Bool) (n : ℕ) (err : WriteError) (l : Log)
    → set (counted n err (set wrote false l)).wrote_header false (counted n err (set wrote false l))
      ≡ counted n err (set wrote false l)
stays_open wrote n hijack_error l = refl
stays_open true n no_error l = refl
stays_open false n no_error l = refl
stays_open true n unsupported_error l = refl
stays_open false n unsupported_error l = refl
stays_open true n other_error l = refl
stays_open false n other_error l = refl

write_at :
    (wrote hijacked : Bool) (b : List ℕ) (n : ℕ) (err : WriteError) (l : Log)
    → write b n err (view (set wrote hijacked l)) ≡ view (log_write b n err (set wrote hijacked l))
unfolding write
write_at wrote true b n err l =
    ap (capture_written n b) (untouched wrote n err l) ∙ (gone n b wrote l).0
write_at wrote false b n err l =
    ap (capture_written n b) (record_at wrote n err l)
    ∙ capture_written-extend n b _ (counted n err (set wrote false l))
    ∙ ap (λ x. view (extend (take n b) x)) (stays_open wrote n err l)

write_string_at :
    (wrote hijacked : Bool) (b : List ℕ) (n : ℕ) (err : WriteError) (l : Log)
    → n ≤ length b
    → write_string b n err (view (set wrote hijacked l))
      ≡ view (log_write b n err (set wrote hijacked l))
unfolding write_string
write_string_at wrote true b n err l i =
    ap (capture_string n b) (untouched wrote n err l) ∙ (gone n b wrote l).1
write_string_at wrote false b n err l i =
    ap (capture_string n b) (record_at wrote n err l)
    ∙ capture_string-extend n b _ (counted n err (set wrote false l)) i
    ∙ ap (λ x. view (extend (take n b) x)) (stays_open wrote n err l)

flush_error-commit :
    (err : WriteError) (l : Log)
    → flush_error err (view l)
      ≡ view (if is_unsupported err || is_hijack_error err then l else commit 200 l)
unfolding flush_error
flush_error-commit hijack_error l = refl
flush_error-commit unsupported_error l = refl
flush_error-commit no_error l = commit_implicit-commit l
flush_error-commit other_error l = commit_implicit-commit l

hijack-log :
    (err : WriteError) (l : Log)
    → hijack err (view l) ≡ view (if is_no_error err then record l { hijacked = true } else l)
unfolding hijack
hijack-log hijack_error l = refl
hijack-log unsupported_error l = refl
hijack-log no_error l = refl
hijack-log other_error l = refl

call-log_call : (c : Call) (l : Log) → IsBounded c → call c (view l) ≡ view (log_call c l)
unfolding call log_call
call-log_call (writes_header code) l i = header_at l.wrote_header l.hijacked code l
call-log_call (writes b n err) l i = write_at l.wrote_header l.hijacked b n err l
call-log_call (writes_string b n err) l i = write_string_at l.wrote_header l.hijacked b n err l i
call-log_call flushes l i = commit_implicit-commit l
call-log_call (flushes_error err) l i = flush_error-commit err l
call-log_call (hijacks err) l i = hijack-log err l

from_log : (cs : List Call) (l : Log) → All IsBounded cs → calls cs (view l) ≡ view (log_calls cs l)
unfolding calls log_calls
from_log [] l i = refl
from_log (c ∷ cs) l i = ap (calls cs) (call-log_call c l i.0) ∙ from_log cs (log_call c l) i.1

-- A tracker that captures responses ends, whatever the handler calls, with the status and the count of the
-- plain log of those calls, with the log's bytes up to the limit, and marked as truncated exactly if the log
-- has more bytes than the limit, as long as no write reports more bytes than it was given.
pub calls-log_calls :
    (limit : ℤ) (cs : List Call)
    → All IsBounded cs
    → calls cs (new_tracker true limit) ≡ view (log_calls cs (open_log limit))
unfolding new_tracker
calls-log_calls limit cs i =
    ap (calls cs) (raw-≡ 0 false false 0 limit _ _ _ _ (no_bytes (pos_part limit)) (ground arith))
    ∙ from_log cs (open_log limit) i
  where
    no_bytes : (n : ℕ) → [] ≡ take {A = ℕ} n []
    no_bytes zero = refl
    no_bytes (suc n) = refl
