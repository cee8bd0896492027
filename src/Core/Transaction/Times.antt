-- ===== src/Core/Transaction/Times.antt =====
-- core/transaction.go: durations.
use duckbug_go.Base.{
  ℕ, ◌-◌, ◌^◌, ◌≤◌, ◌<◌, String, str_eq, Bool, true, false, not, some, ◌≡◌, refl, ap, ◌∙◌, sym,
  arith,
}
use duckbug_go.Base.Int.{pos, sub_int64}
use duckbug_go.Value.{Value, str, int, Fields, lookup, of_map, entries, is_empty}
use duckbug_go.Value.Entries.{lookup-insert}
use duckbug_go.Core.Util.{clone_map}
use duckbug_go.Core.Transaction.{
  Span, Transaction, duration_ms, span_payload, max_int64, end_of, put_if,
}

sub_pos : (a b : ℕ) → a ≤ b → b < 2 ^ 63 → sub_int64 (pos b) (pos a) ≡ pos (b - a)
unfolding sub_int64
sub_pos a b h k = ground arith

max_sub :
    (a b : ℕ)
    → a < 2 ^ 63
    → b < 2 ^ 63
    → max_int64 (pos 0) (sub_int64 (pos b) (pos a)) ≡ pos (b - a)
unfolding max_int64 sub_int64
max_sub a b h k = ground arith

lookup-put_if :
    (test : Bool) (k j : String) (v : Value) (fs : Fields)
    → str_eq k j ≡ false
    → lookup j (put_if test k v fs) ≡ lookup j fs
lookup-put_if true k j v fs e = lookup-insert k j v fs ∙ rw e
lookup-put_if false k j v fs e = refl

-- For a transaction that starts at a ms and ends at b ms, neither of them negative, `DurationMs` is b - a,
-- and 0 if the end lies before the start.
pub duration_ms-finished :
    (t : Transaction) (a b : ℕ)
    → a < 2 ^ 63
    → b < 2 ^ 63
    → t.start_timestamp_ms ≡ pos a
    → t.end_timestamp_ms ≡ some (pos b)
    → duration_ms (some t) ≡ pos (b - a)
unfolding duration_ms sub_int64
duration_ms-finished t a b h k s e = ground arith

-- The payload of a span that starts at a ms and ends at b ms, neither of them negative, holds the duration
-- b - a, or 0 if the end lies before the start, the same that `DurationMs` gives for a transaction with these
-- times.
pub span_payload-duration :
    (s : Span) (t : Transaction) (a b : ℕ)
    → a < 2 ^ 63
    → b < 2 ^ 63
    → s.start_timestamp_ms ≡ pos a
    → s.end_timestamp_ms ≡ some (pos b)
    → t.start_timestamp_ms ≡ pos a
    → t.end_timestamp_ms ≡ some (pos b)
    → (lookup "duration" (span_payload s) ≡ some (int (pos (b - a))))
      × (lookup "duration" (span_payload s) ≡ some (int (duration_ms (some t))))
unfolding span_payload lookup
span_payload-duration s t a b h k es ee ts te =
    let found : lookup "duration" (span_payload s) ≡ some (int (pos (b - a))) =
      lookup-put_if (not (is_empty (entries s.span_data))) "data" "duration"
        (of_map (clone_map s.span_data)) _ refl
      ∙ lookup-put_if (not (str_eq s.status "")) "status" "duration" (str s.status) _ refl
      ∙ lookup-put_if (not (str_eq s.description "")) "description" "duration" (str s.description) _
          refl
      ∙ ap (λ x. some (int x))
          (ap
              (λ x.
                max_int64 (pos 0) (sub_int64 (end_of s.start_timestamp_ms x) s.start_timestamp_ms))
              ee
            ∙ ap (λ x. max_int64 (pos 0) (sub_int64 (pos b) x)) es
            ∙ max_sub a b h k) in
    (found, found ∙ ap (λ x. some (int x)) (sym (duration_ms-finished t a b h k ts te)))
