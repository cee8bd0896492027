-- ===== src/Integrations/Tracker.antt =====
-- integrations/nethttp/response_writer.go: what a tracker learns of a response while the handler writes it.
-- The writer below is not the tracker's: what it returns, a count of bytes that is at most the data's length
-- and an error, enters each operation. Bytes are numbers; status codes are not negative.
pub mod Body
pub mod Writes
pub mod Refines
pub mod Status
pub mod Marks
use Prim.Native.String.{◌++◌ as str_append}
use duckbug_go.Base.{
  ℕ, ◌+◌, ◌-◌, String, str_eq, Bool, true, false, not, ◌&&◌, ◌||◌, leb, ltb, ◌==◌, List, [], ◌∷◌,
  ◌++◌, length, take, min, if◌then◌else◌, is_nil,
}
use duckbug_go.Base.Int.{ℤ, pos_part}
use duckbug_go.Text.{trim_space}

pub record Tracker : Type 0 where
  pub status_code : ℕ
  pub wrote_header : Bool
  pub hijacked : Bool
  pub accepted_bytes : ℕ
  pub capture_response : Bool
  pub max_response_bytes : ℤ
  pub response_body : List ℕ
  pub truncated : Bool

-- The errors that the tracker tells apart: none, `http.ErrHijacked`, `http.ErrNotSupported`, and any other.
pub data WriteError : Type 0 where
  no_error hijack_error unsupported_error other_error : WriteError

abbrev pub is_hijack_error : WriteError → Bool
is_hijack_error hijack_error = true
is_hijack_error no_error = false
is_hijack_error unsupported_error = false
is_hijack_error other_error = false

abbrev pub is_unsupported : WriteError → Bool
is_unsupported unsupported_error = true
is_unsupported no_error = false
is_unsupported hijack_error = false
is_unsupported other_error = false

abbrev pub is_no_error : WriteError → Bool
is_no_error no_error = true
is_no_error hijack_error = false
is_no_error unsupported_error = false
is_no_error other_error = false

unfoldable pub new_tracker : Bool → ℤ → Tracker
new_tracker capture_handled5xx max_body_bytes = record {
  status_code = 0;
  wrote_header = false;
  hijacked = false;
  accepted_bytes = 0;
  capture_response = capture_handled5xx;
  max_response_bytes = max_body_bytes;
  response_body = [];
  truncated = false;
}

unfoldable pub commit_implicit : Tracker → Tracker
commit_implicit t =
    if not t.wrote_header && not t.hijacked
    then record t { status_code = 200; wrote_header = true }
    else t

-- `t.maxResponseBytes - t.responseBody.Len()`, which counts only if it is positive.
abbrev pub remaining : Tracker → ℕ
remaining t = pos_part t.max_response_bytes - length t.response_body

unfoldable pub capture_body : List ℕ → Tracker → Tracker
capture_body bytes t =
    if not t.capture_response || is_nil bytes || t.truncated
    then t
    else if remaining t == 0
    then record t { truncated = true }
    else if ltb (remaining t) (length bytes)
    then record t { response_body = t.response_body ++ take (remaining t) bytes; truncated = true }
    else record t { response_body = t.response_body ++ bytes }

-- `recordWrite`; the error that it returns is `short_write`.
unfoldable pub record_write : ℕ → WriteError → Tracker → Tracker
unfolding commit_implicit
record_write n err t =
    if not (is_hijack_error err) && not t.hijacked
    then (let c = commit_implicit t in record c { accepted_bytes = c.accepted_bytes + n })
    else t

-- Whether `recordWrite` turns the result into `io.ErrShortWrite`.
unfoldable pub short_write : ℕ → ℕ → WriteError → Bool
short_write n requested err = ltb n requested && is_no_error err

-- The hook of `WriteHeader`; 101 is StatusSwitchingProtocols.
unfoldable pub write_header : ℕ → Tracker → Tracker
write_header code t =
    if t.wrote_header || t.hijacked
    then t
    else if leb 100 code && ltb code 200 && not (code == 101)
    then t
    else record t { status_code = code; wrote_header = true }

abbrev pub capture_written : ℕ → List ℕ → Tracker → Tracker
capture_written n bytes t = if ltb 0 n && not t.hijacked then capture_body (take n bytes) t else t

-- The hook of `Write`, when the writer below took `n` bytes.
unfoldable pub write : List ℕ → ℕ → WriteError → Tracker → Tracker
unfolding record_write capture_body
write bytes n err t = capture_written n bytes (record_write n err t)

abbrev pub mark_truncated : Bool → Tracker → Tracker
mark_truncated b t = if b then record t { truncated = true } else t

abbrev pub capture_string : ℕ → List ℕ → Tracker → Tracker
capture_string n bytes t =
    if ltb 0 n && not t.hijacked && t.capture_response && not t.truncated
    then mark_truncated (ltb (remaining t) n) (capture_body (take (min n (remaining t)) bytes) t)
    else t

-- The hook of `WriteString`.
unfoldable pub write_string : List ℕ → ℕ → WriteError → Tracker → Tracker
unfolding record_write capture_body
write_string bytes n err t = capture_string n bytes (record_write n err t)

unfoldable pub flush_error : WriteError → Tracker → Tracker
unfolding commit_implicit
flush_error err t =
    if not (is_unsupported err) && not (is_hijack_error err) then commit_implicit t else t

unfoldable pub hijack : WriteError → Tracker → Tracker
hijack err t = if is_no_error err then record t { hijacked = true } else t

unfoldable pub response_status : Bool → Tracker → ℕ
response_status finished t =
    if not t.wrote_header && finished && not t.hijacked then 200 else t.status_code

-- `responseSnippet`, with the text that the bytes spell.
unfoldable pub response_snippet : (List ℕ → String) → Tracker → String
response_snippet text t =
    let body = trim_space (text t.response_body) in
    if str_eq body "" then "" else if t.truncated then str_append body "...(truncated)" else body

-- What the handler does with the writer. `ReadFrom` copies by `Write`.
pub data Call : Type 0 where
  writes_header : ℕ → Call
  writes : List ℕ → ℕ → WriteError → Call
  writes_string : List ℕ → ℕ → WriteError → Call
  flushes : Call
  flushes_error : WriteError → Call
  hijacks : WriteError → Call

unfoldable pub call : Call → Tracker → Tracker
unfolding write write_string write_header commit_implicit flush_error hijack
call (writes_header code) t = write_header code t
call (writes bytes n err) t = write bytes n err t
call (writes_string bytes n err) t = write_string bytes n err t
call flushes t = commit_implicit t
call (flushes_error err) t = flush_error err t
call (hijacks err) t = hijack err t

unfoldable pub calls : List Call → Tracker → Tracker
unfolding call
calls [] t = t
calls (c ∷ cs) t = calls cs (call c t)
