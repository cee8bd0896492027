-- ===== src/Integrations/Tracker/Marks.antt =====
-- integrations/nethttp/response_writer.go: the status, the written header and the hijacking of any tracker, by the
-- calls that a handler makes, whatever is captured of the response's body.
use duckbug_go.Base.{
  ℕ, Bool, true, false, not, ◌&&◌, ◌||◌, Option, none, some, List, [], ◌∷◌, ◌≡◌, refl, ap, ◌∙◌, inl,
  inr, Bool-cases, if◌then◌else◌, ltb, arith, take, min,
}
use duckbug_go.Base.Int.{ℤ}
use duckbug_go.Integrations.Tracker.{
  Tracker, WriteError, is_hijack_error, is_unsupported, is_no_error, new_tracker, commit_implicit,
  remaining, capture_body, record_write, write_header, capture_written, write, mark_truncated,
  capture_string, write_string, flush_error, hijack, response_status, Call, writes_header, writes,
  writes_string, flushes, flushes_error, hijacks, call, calls,
}
use duckbug_go.Integrations.Tracker.Writes.{is_informational}
use duckbug_go.Integrations.Tracker.Status.{first_status}

abbrev pub Mark : Type 0
Mark = ℕ × Bool × Bool

abbrev pub mark : Tracker → Mark
mark t = (t.status_code, t.wrote_header, t.hijacked)

-- Bytes or a flush that reach the client.
abbrev send : Bool → Mark → Mark
send held (s, w, h) = if not held && not w && not h then (200, true, h) else (s, w, h)

abbrev mark_call : Call → Mark → Mark
mark_call (writes_header code) (s, w, h) =
    if not (is_informational code) && not w && not h then (code, true, h) else (s, w, h)
mark_call (writes b n err) m = send (is_hijack_error err) m
mark_call (writes_string b n err) m = send (is_hijack_error err) m
mark_call flushes m = send false m
mark_call (flushes_error err) m = send (is_unsupported err || is_hijack_error err) m
mark_call (hijacks err) (s, w, h) = (s, w, is_no_error err || h)

capture_body-mark : (b : List ℕ) (t : Tracker) → mark (capture_body b t) ≡ mark t
unfolding capture_body
capture_body-mark b t = ground arith

capture_written-mark : (n : ℕ) (b : List ℕ) (t : Tracker) → mark (capture_written n b t) ≡ mark t
capture_written-mark n b t = elim (Bool-cases (ltb 0 n && not t.hijacked)) [
  | inl e ↦ rw e (capture_body-mark (take n b) t)
  | inr e ↦ rw e refl
]

mark_truncated-mark : (b : Bool) (t : Tracker) → mark (mark_truncated b t) ≡ mark t
mark_truncated-mark true t = refl
mark_truncated-mark false t = refl

capture_string-mark : (n : ℕ) (b : List ℕ) (t : Tracker) → mark (capture_string n b t) ≡ mark t
capture_string-mark n b t =
    elim (Bool-cases (ltb 0 n && not t.hijacked && t.capture_response && not t.truncated)) [
      | inl e ↦ rw e (
          mark_truncated-mark (ltb (remaining t) n) _
          ∙ capture_body-mark (take (min n (remaining t)) b) t)
      | inr e ↦ rw e refl
    ]

record_write-mark :
    (n : ℕ) (err : WriteError) (t : Tracker)
    → mark (record_write n err t) ≡ send (is_hijack_error err) (mark t)
unfolding record_write commit_implicit
record_write-mark n err t = ground arith

call-mark : (c : Call) (t : Tracker) → mark (call c t) ≡ mark_call c (mark t)
unfolding call write write_string write_header commit_implicit flush_error hijack
call-mark (writes_header code) t = ground arith
call-mark (writes b n err) t =
    capture_written-mark n b (record_write n err t) ∙ record_write-mark n err t
call-mark (writes_string b n err) t =
    capture_string-mark n b (record_write n err t) ∙ record_write-mark n err t
call-mark flushes t = ground arith
call-mark (flushes_error err) t = ground arith
call-mark (hijacks err) t = ground arith

-- Whether some call takes the connection over.
unfoldable pub takes_over : List Call → Bool
takes_over [] = false
takes_over (hijacks err ∷ cs) = is_no_error err || takes_over cs
takes_over (c ∷ cs) = takes_over cs

abbrev pub status_or : ℕ → Option ℕ → ℕ
status_or s none = s
status_or s (some code) = code

abbrev pub is_some : Option ℕ → Bool
is_some none = false
is_some (some code) = true

-- The mark after some calls: a mark that is open takes the first status.
abbrev pub run_mark : Mark → Option ℕ → Bool → Mark
run_mark (s, false, false) o taken = (status_or s o, is_some o, taken)
run_mark (s, true, h) o taken = (s, true, h || taken)
run_mark (s, false, true) o taken = (s, false, true)

sends_or :
    (b : Bool) (code s : ℕ) (w h : Bool) (o : Option ℕ) (taken : Bool)
    → run_mark (if not b && not w && not h then (code, true, h) else (s, w, h)) o taken
      ≡ run_mark (s, w, h) (if b then o else some code) taken
sends_or true code s w h o taken = refl
sends_or false code s true h o taken = refl
sends_or false code s false true o taken = refl
sends_or false code s false false o taken = refl

takes_or :
    (b : Bool) (s : ℕ) (w h : Bool) (o : Option ℕ) (taken : Bool)
    → run_mark (s, w, b || h) o taken ≡ run_mark (s, w, h) (if b then none else o) (b || taken)
takes_or false s w h o taken = refl
takes_or true s true true o taken = refl
takes_or true s true false o taken = refl
takes_or true s false true o taken = refl
takes_or true s false false o taken = refl

run_mark-call :
    (c : Call) (cs : List Call) (s : ℕ) (w h : Bool)
    → run_mark (mark_call c (s, w, h)) (first_status cs) (takes_over cs)
      ≡ run_mark (s, w, h) (first_status (c ∷ cs)) (takes_over (c ∷ cs))
unfolding first_status takes_over
run_mark-call (writes_header code) cs s w h = sends_or (is_informational code) code s w h _ _
run_mark-call (writes b n err) cs s w h = sends_or (is_hijack_error err) 200 s w h _ _
run_mark-call (writes_string b n err) cs s w h = sends_or (is_hijack_error err) 200 s w h _ _
run_mark-call flushes cs s w h = sends_or false 200 s w h _ _
run_mark-call (flushes_error err) cs s w h =
    sends_or (is_unsupported err || is_hijack_error err) 200 s w h _ _
run_mark-call (hijacks err) cs s w h = takes_or (is_no_error err) s w h _ _

open_end : (s : ℕ) (w h : Bool) → (s, w, h) ≡ run_mark (s, w, h) none false
open_end s false false = refl
open_end s true true = refl
open_end s true false = refl
open_end s false true = refl

-- The mark of a tracker after a handler's calls.
pub calls-mark :
    (cs : List Call) (t : Tracker)
    → mark (calls cs t) ≡ run_mark (mark t) (first_status cs) (takes_over cs)
unfolding calls first_status takes_over
calls-mark [] t = open_end t.status_code t.wrote_header t.hijacked
calls-mark (c ∷ cs) t =
    calls-mark cs (call c t)
    ∙ ap (λ m. run_mark m (first_status cs) (takes_over cs)) (call-mark c t)
    ∙ run_mark-call c cs t.status_code t.wrote_header t.hijacked

-- The status that is reported: the first one, or 200 at the end of a handler that left the connection alone.
abbrev pub reported_status : Bool → Option ℕ → Bool → ℕ
reported_status finished (some code) taken = code
reported_status finished none taken = if finished && not taken then 200 else 0

reported :
    (finished : Bool) (o : Option ℕ) (taken : Bool)
    → (if not (run_mark (0, false, false) o taken).1
          && finished
          && not (run_mark (0, false, false) o taken).2
        then 200
        else (run_mark (0, false, false) o taken).0)
      ≡ reported_status finished o taken
reported true (some code) taken = refl
reported false (some code) taken = refl
reported true none true = refl
reported true none false = refl
reported false none taken = refl

-- A tracker reports the first status that the handler's calls settle, by a final code, by bytes or by a flush,
-- whatever comes after it, whatever the tracker captures and whatever the writes return. While there is none it
-- reports 0, and for a handler that has finished 200 unless it took the connection over.
pub status-calls :
    (capture finished : Bool) (limit : ℤ) (cs : List Call)
    → response_status finished (calls cs (new_tracker capture limit))
      ≡ reported_status finished (first_status cs) (takes_over cs)
unfolding response_status new_tracker
status-calls capture finished limit cs =
    ap (λ (m : Mark). if not m.1 && finished && not m.2 then 200 else m.0)
      (calls-mark cs (new_tracker capture limit))
    ∙ reported finished (first_status cs) (takes_over cs)
