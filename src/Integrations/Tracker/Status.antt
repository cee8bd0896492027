-- ===== src/Integrations/Tracker/Status.antt =====
-- integrations/nethttp/response_writer.go: the status that a tracker reports.
use duckbug_go.Base.{
  ℕ, Bool, true, false, not, ◌&&◌, ◌||◌, Option, none, some, List, [], ◌∷◌, ◌≡◌, ◌≢◌, arith, refl,
  ap, ◌∙◌, inl, inr, Bool-cases, if◌then◌else◌, All, take, ◌+◌,
}
use duckbug_go.Base.Int.{ℤ}
use duckbug_go.Integrations.Tracker.{
  Tracker, WriteError, is_hijack_error, is_unsupported, is_no_error, new_tracker, response_status,
  Call, writes_header, writes, writes_string, flushes, flushes_error, hijacks, calls,
}
use duckbug_go.Integrations.Tracker.Body.{Log, extend}
use duckbug_go.Integrations.Tracker.Writes.{
  open_log, commit, log_write, is_informational, log_call, log_calls, IsBounded, set,
}
use duckbug_go.Integrations.Tracker.Refines.{calls-log_calls}

-- The first status that a list of calls settles: the first final code that is set, or 200 if bytes or a flush
-- come before it, unless the connection is taken over first.
unfoldable pub first_status : List Call → Option ℕ
first_status [] = none
first_status (writes_header code ∷ cs) =
    let rest = first_status cs in if is_informational code then rest else some code
first_status (writes b n err ∷ cs) =
    let rest = first_status cs in if is_hijack_error err then rest else some 200
first_status (writes_string b n err ∷ cs) =
    let rest = first_status cs in if is_hijack_error err then rest else some 200
first_status (flushes ∷ cs) = some 200
first_status (flushes_error err ∷ cs) =
    let rest = first_status cs in
    if is_unsupported err || is_hijack_error err then rest else some 200
first_status (hijacks err ∷ cs) =
    let rest = first_status cs in if is_no_error err then none else rest

abbrev mark : Log → ℕ × Bool
mark l = (l.status_code, l.wrote_header)

abbrev Closed : Log → Type 0
Closed l = (l.wrote_header || l.hijacked) ≡ true

false≢true : false ≢ true
false≢true e = ground arith

log_write-Closed :
    (wrote hijacked : Bool) (b : List ℕ) (n : ℕ) (err : WriteError) (l : Log)
    → (wrote || hijacked) ≡ true
    → (mark (log_write b n err (set wrote hijacked l)) ≡ mark (set wrote hijacked l))
      × Closed (log_write b n err (set wrote hijacked l))
log_write-Closed true true b n err l e = (refl, refl)
log_write-Closed false true b n err l e = (refl, refl)
log_write-Closed false false b n err l e = elim (false≢true e) [ ]
log_write-Closed true false b n err l e = elim (Bool-cases (is_hijack_error err)) [
  | inl f ↦ rw f (refl, refl)
  | inr f ↦ rw f (refl, refl)
]

commit-Closed :
    (wrote hijacked b : Bool) (code : ℕ) (l : Log)
    → (wrote || hijacked) ≡ true
    → (mark (if b then set wrote hijacked l else commit code (set wrote hijacked l))
        ≡ mark (set wrote hijacked l))
      × Closed (if b then set wrote hijacked l else commit code (set wrote hijacked l))
commit-Closed true hijacked true code l e = (refl, e)
commit-Closed true hijacked false code l e = (refl, e)
commit-Closed false true true code l e = (refl, e)
commit-Closed false true false code l e = (refl, e)
commit-Closed false false b code l e = elim (false≢true e) [ ]

hijack-Closed :
    (wrote hijacked b : Bool) (l : Log)
    → (wrote || hijacked) ≡ true
    → (mark (if b then record (set wrote hijacked l) { hijacked = true } else set wrote hijacked l)
        ≡ mark (set wrote hijacked l))
      × Closed
          (if b then record (set wrote hijacked l) { hijacked = true } else set wrote hijacked l)
hijack-Closed true hijacked true l e = (refl, refl)
hijack-Closed false hijacked true l e = (refl, refl)
hijack-Closed wrote hijacked false l e = (refl, e)

log_call-Closed :
    (c : Call) (l : Log) → Closed l → (mark (log_call c l) ≡ mark l) × Closed (log_call c l)
unfolding log_call
log_call-Closed (writes_header code) l e =
    commit-Closed l.wrote_header l.hijacked (is_informational code) code l e
log_call-Closed (writes b n err) l e = log_write-Closed l.wrote_header l.hijacked b n err l e
log_call-Closed (writes_string b n err) l e = log_write-Closed l.wrote_header l.hijacked b n err l e
log_call-Closed flushes l e = commit-Closed l.wrote_header l.hijacked false 200 l e
log_call-Closed (flushes_error err) l e =
    commit-Closed l.wrote_header l.hijacked (is_unsupported err || is_hijack_error err) 200 l e
log_call-Closed (hijacks err) l e = hijack-Closed l.wrote_header l.hijacked (is_no_error err) l e

run_settled : (cs : List Call) (l : Log) → Closed l → mark (log_calls cs l) ≡ mark l
unfolding log_calls
run_settled [] l e = refl
run_settled (c ∷ cs) l e =
    run_settled cs (log_call c l) (log_call-Closed c l e).1 ∙ (log_call-Closed c l e).0

abbrev settled : ℕ → Option ℕ → ℕ × Bool
settled status none = (status, false)
settled status (some code) = (code, true)

-- The three ways on from an open response, by the test that the call makes.
commit_or_not :
    (b : Bool) (code : ℕ) (cs : List Call) (l : Log)
    → mark (log_calls cs (set false false l)) ≡ settled l.status_code (first_status cs)
    → mark (log_calls cs (if b then set false false l else commit code (set false false l)))
      ≡ settled l.status_code (if b then first_status cs else some code)
commit_or_not true code cs l ih = ih
commit_or_not false code cs l ih = run_settled cs (commit code (set false false l)) refl

write_or_not :
    (b : Bool) (x : List ℕ) (n : ℕ) (cs : List Call) (l : Log)
    → mark (log_calls cs (extend x (set false false l))) ≡ settled l.status_code (first_status cs)
    → mark (
        log_calls cs (
          extend x (
            if b then set false false l else record (commit 200 (set false false l)) {
              accepted_bytes = l.accepted_bytes + n;
            })))
      ≡ settled l.status_code (if b then first_status cs else some 200)
write_or_not true x n cs l ih = ih
write_or_not false x n cs l ih = run_settled cs _ refl

hijack_or_not :
    (b : Bool) (cs : List Call) (l : Log)
    → mark (log_calls cs (set false false l)) ≡ settled l.status_code (first_status cs)
    → mark (
        log_calls cs
          (if b then record (set false false l) { hijacked = true } else set false false l))
      ≡ settled l.status_code (if b then none else first_status cs)
hijack_or_not true cs l ih = run_settled cs (set false true l) refl
hijack_or_not false cs l ih = ih

open_run :
    (cs : List Call) (l : Log)
    → mark (log_calls cs (set false false l)) ≡ settled l.status_code (first_status cs)
unfolding log_calls log_call first_status
open_run [] l = refl
open_run (writes_header code ∷ cs) l =
    commit_or_not (is_informational code) code cs l (open_run cs l)
open_run (writes b n err ∷ cs) l =
    write_or_not (is_hijack_error err) (take n b) n cs l (open_run cs (extend (take n b) l))
open_run (writes_string b n err ∷ cs) l =
    write_or_not (is_hijack_error err) (take n b) n cs l (open_run cs (extend (take n b) l))
open_run (flushes ∷ cs) l = commit_or_not false 200 cs l (open_run cs l)
open_run (flushes_error err ∷ cs) l =
    commit_or_not (is_unsupported err || is_hijack_error err) 200 cs l (open_run cs l)
open_run (hijacks err ∷ cs) l = hijack_or_not (is_no_error err) cs l (open_run cs l)

abbrev pub or_zero : Option ℕ → ℕ
or_zero none = 0
or_zero (some code) = code

first_settled : (o : Option ℕ) → (settled 0 o).0 ≡ or_zero o
first_settled none = refl
first_settled (some code) = refl

unfinished : (t : Tracker) → response_status false t ≡ t.status_code
unfolding response_status
unfinished t = both t.wrote_header
  where
    both :
        (b : Bool)
        → (if not b && false && not t.hijacked then 200 else t.status_code) ≡ t.status_code
    both true = refl
    both false = refl

-- While a handler runs, a tracker that captures responses reports the first status that the handler's calls
-- settle, by a final code, by bytes or by a flush, whatever comes after it, and 0 while there is none, as long
-- as no write reports more bytes than it was given.
pub status-first_status :
    (limit : ℤ) (cs : List Call)
    → All IsBounded cs
    → response_status false (calls cs (new_tracker true limit)) ≡ or_zero (first_status cs)
status-first_status limit cs i =
    unfinished (calls cs (new_tracker true limit))
    ∙ ap (λ t. t.status_code) (calls-log_calls limit cs i)
    ∙ ap (λ m. m.0) (open_run cs (open_log limit))
    ∙ first_settled (first_status cs)
