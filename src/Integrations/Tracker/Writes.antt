-- ===== src/Integrations/Tracker/Writes.antt =====
-- integrations/nethttp/response_writer.go: the plain log of a response, and single writes.
use duckbug_go.Base.{
  ℕ, ◌+◌, ◌≤◌, ◌<◌, ◌==◌, ltb, leb, min, Bool, true, false, not, ◌&&◌, ◌||◌, List, [], ◌∷◌, ◌++◌,
  length, take, append-nil, length-append, length-take, ◌≡◌, refl, ap, sym, ◌∙◌, inl, inr, arith,
  Bool-cases, if◌then◌else◌,
}
use duckbug_go.Base.Int.{ℤ, pos_part}
use duckbug_go.Integrations.Tracker.{
  WriteError, is_hijack_error, is_unsupported, is_no_error, commit_implicit, remaining,
  capture_written, capture_string, write_header, Call, writes_header, writes, writes_string,
  flushes, flushes_error, hijacks,
}
use duckbug_go.Integrations.Tracker.Body.{
  Log, view, extend, take-long, take-take, raw-≡, with_room, capture_body-extend,
}

abbrev pub open_log : ℤ → Log
open_log limit = record {
  status_code = 0;
  wrote_header = false;
  hijacked = false;
  accepted_bytes = 0;
  limit = limit;
  bytes = [];
}

-- A status, unless there is one or the connection is gone.
abbrev pub commit : ℕ → Log → Log
commit code l =
    if l.wrote_header || l.hijacked then l else record l { status_code = code; wrote_header = true }

-- The bytes of a write: they commit the header and count unless the write met a connection that is gone.
abbrev pub log_write : List ℕ → ℕ → WriteError → Log → Log
log_write b n err l =
    if l.hijacked
    then l
    else extend (take n b) (
        if is_hijack_error err
        then l
        else record (commit 200 l) { accepted_bytes = l.accepted_bytes + n })

-- An informational status, which is not the response's.
abbrev pub is_informational : ℕ → Bool
is_informational code = leb 100 code && ltb code 200 && not (code == 101)

unfoldable pub log_call : Call → Log → Log
log_call (writes_header code) l = if is_informational code then l else commit code l
log_call (writes b n err) l = log_write b n err l
log_call (writes_string b n err) l = log_write b n err l
log_call flushes l = commit 200 l
log_call (flushes_error err) l =
    if is_unsupported err || is_hijack_error err then l else commit 200 l
log_call (hijacks err) l = if is_no_error err then record l { hijacked = true } else l

unfoldable pub log_calls : List Call → Log → Log
unfolding log_call
log_calls [] l = l
log_calls (c ∷ cs) l = log_calls cs (log_call c l)

-- A writer takes at most the bytes that it is given.
abbrev pub IsBounded : Call → Type 0
IsBounded (writes b n err) = n ≤ length b
IsBounded (writes_string b n err) = n ≤ length b
IsBounded (writes_header code) = Unit
IsBounded flushes = Unit
IsBounded (flushes_error err) = Unit
IsBounded (hijacks err) = Unit

-- The tracker's log with the two tests on the header and the connection as arguments.
abbrev pub set : Bool → Bool → Log → Log
set wrote hijacked l = record l { wrote_header = wrote; hijacked = hijacked }

commit_at :
    (wrote hijacked : Bool) (l : Log)
    → commit_implicit (view (set wrote hijacked l)) ≡ view (commit 200 (set wrote hijacked l))
unfolding commit_implicit
commit_at true hijacked l = refl
commit_at false true l = refl
commit_at false false l = refl

pub commit_implicit-commit : (l : Log) → commit_implicit (view l) ≡ view (commit 200 l)
commit_implicit-commit l = commit_at l.wrote_header l.hijacked l

pub header_at :
    (wrote hijacked : Bool) (code : ℕ) (l : Log)
    → write_header code (view (set wrote hijacked l))
      ≡ view (
          if is_informational code
          then set wrote hijacked l
          else commit code (set wrote hijacked l))
unfolding write_header
header_at wrote hijacked code l = elim (Bool-cases (is_informational code)) [
  | inl e ↦ rw e (both true wrote hijacked)
  | inr e ↦ rw e (both false wrote hijacked)
]
  where
    both :
        (b wrote hijacked : Bool)
        → (if wrote || hijacked
            then view (set wrote hijacked l)
            else if b
            then view (set wrote hijacked l)
            else record (view (set wrote hijacked l)) { status_code = code; wrote_header = true })
          ≡ view (if b then set wrote hijacked l else commit code (set wrote hijacked l))
    both true true hijacked = refl
    both true false true = refl
    both true false false = refl
    both false true hijacked = refl
    both false false true = refl
    both false false false = refl

pub capture_written-extend :
    (n : ℕ) (b : List ℕ) (wrote : Bool) (l : Log)
    → capture_written n b (view (set wrote false l)) ≡ view (extend (take n b) (set wrote false l))
capture_written-extend n b wrote l = elim (Bool-cases (ltb 0 n)) [
  | inl e ↦ rw e (capture_body-extend (take n b) (set wrote false l))
  | inr e ↦ let z : n ≡ 0 = ground arith in rw (e, z) (rw (append-nil l.bytes))
]

same_cut :
    (l : Log) (n : ℕ) (b : List ℕ)
    → ltb (pos_part l.limit) (length l.bytes) ≡ false
    → remaining (view l) ≤ n
    → take (pos_part l.limit) (l.bytes ++ take (min n (remaining (view l))) b)
      ≡ take (pos_part l.limit) (l.bytes ++ take n b)
same_cut l n b e h =
    with_room l (take (min n (remaining (view l))) b) e
    ∙ ap (λ x. take (pos_part l.limit) l.bytes ++ x)
        (take-take (remaining (view l)) (min n (remaining (view l))) b (omega arith)
          ∙ sym (take-take (remaining (view l)) n b h))
    ∙ sym (with_room l (take n b) e)

overflows :
    (l : Log) (n : ℕ) (b : List ℕ)
    → n ≤ length b
    → pos_part l.limit < length l.bytes + n
    → true ≡ ltb (pos_part l.limit) (length (l.bytes ++ take n b))
overflows l n b i h = ground (arith, length-append l.bytes (take n b), length-take n b)

pub capture_string-extend :
    (n : ℕ) (b : List ℕ) (wrote : Bool) (l : Log)
    → n ≤ length b
    → capture_string n b (view (set wrote false l)) ≡ view (extend (take n b) (set wrote false l))
capture_string-extend n b wrote l i = elim (Bool-cases (ltb 0 n)) [
  | inr e ↦ let z : n ≡ 0 = ground arith in rw (e, z) (rw (append-nil l.bytes))
  | inl e ↦ elim (Bool-cases (ltb (pos_part l.limit) (length l.bytes))) [
    | inl f ↦
        rw (e, f)
          (raw-≡ _ _ _ _ _ _ _ _ _
            (sym (take-long (pos_part l.limit) l.bytes (take n b) (ground arith)))
            (overflows l n b i (ground arith)))
    | inr f ↦ elim (Bool-cases (ltb (remaining (view l)) n)) [
      | inl m ↦
          rw
            (e, capture_body-extend (take (min n (remaining (view l))) b) (set wrote false l), f, m)
            (raw-≡ _ _ _ _ _ _ _ _ _ (same_cut l n b f (ground arith))
              (overflows l n b i (ground (arith, length-take (pos_part l.limit) l.bytes))))
      | inr m ↦
          let whole : min n (remaining (view l)) ≡ n = ground arith in
          rw
            (
              e,
              capture_body-extend (take (min n (remaining (view l))) b) (set wrote false l),
              f,
              m,
              whole,
            )
            refl
    ]
  ]
]
