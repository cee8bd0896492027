-- ===== src/Core/Transaction/Children.antt =====
-- core/transaction.go: the spans of a transaction.
use duckbug_go.Base.{
  ℕ, zero, suc, ◌==◌, String, Option, none, some, List, [], ◌∷◌, ◌++◌, ◌≡◌, refl, arith, length,
  if◌then◌else◌,
}
use duckbug_go.Base.Int.{ℤ}
use duckbug_go.Core.Transaction.{Span, Transaction, child, start_child, on_span}

-- The span at a position.
abbrev pub span_at : ℕ → List Span → Option Span
span_at i [] = none
span_at zero (s ∷ ss) = some s
span_at (suc i) (s ∷ ss) = span_at i ss

abbrev pub called : (Span → Span) → Option Span → Option Span
called f none = none
called f (some s) = some (f s)

span_at-append :
    (ss : List Span) (j : ℕ) (s : Span)
    → span_at j (ss ++ s ∷ []) ≡ (if j == length ss then some s else span_at j ss)
span_at-append [] zero s = refl
span_at-append [] (suc j) s = ground arith
span_at-append (y ∷ ss) zero s = ground arith
span_at-append (y ∷ ss) (suc j) s = ground (arith, span_at-append ss j s)

-- `StartChild` adds one span, at the position that it returns, and leaves all others where they are. The
-- new span carries the trace of its transaction, has the transaction's span as its parent, and has not ended.
pub start_child-spans :
    (op description id : String) (now : ℤ) (t : Transaction) (j : ℕ)
    → let (t', i) = start_child op description id now t in
      let s = child op description id now t in
      (span_at j t'.spans ≡ (if j == i then some s else span_at j t.spans))
      × (s.trace_id ≡ t.trace_id)
      × (s.parent_span_id ≡ t.span_id)
      × (s.end_timestamp_ms ≡ none)
unfolding start_child
start_child-spans op description id now t j =
    (span_at-append t.spans j (child op description id now t), refl, refl, refl)

-- A call on a span changes the span at its position and leaves the others as they are.
pub span_at-on_span :
    (i j : ℕ) (f : Span → Span) (ss : List Span)
    → span_at j (on_span i f ss) ≡ (if j == i then called f (span_at j ss) else span_at j ss)
unfolding on_span
span_at-on_span i j f [] = ground arith
span_at-on_span zero zero f (x ∷ ss) = refl
span_at-on_span zero (suc j) f (x ∷ ss) = ground arith
span_at-on_span (suc i) zero f (x ∷ ss) = ground arith
span_at-on_span (suc i) (suc j) f (x ∷ ss) = ground (arith, span_at-on_span i j f ss)
