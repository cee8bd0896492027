-- ===== src/Provider/Transport/Retry.antt =====
-- providers/duckbug/http_transport.go: what is retried, how often, and which result a request ends with.
use duckbug_go.Base.{
  ℕ, zero, suc, ◌+◌, ◌≤◌, ◌<◌, leb, str_eq, eq_iff, true, false, not, ◌||◌, List, [], ◌∷◌, ◌≡◌, ◌≢◌,
  ◌↔◌, ◌⊎◌, inl, inr, refl, ap, sym, ◌∙◌, Bool-cases, arith, if◌then◌else◌, none,
}
use duckbug_go.Base.Int.{ℤ}
use duckbug_go.Core.Types.{TransportResult, is_success}
use duckbug_go.Provider.Transport.{
  HttpTransport, Network, Exchange, failed, response, result_of, execute, should_retry, cancelled,
  attempts_from, requested, request, backoff_delay,
}

-- Another attempt is made exactly for a request without a response, and for the status codes 408, 429 and
-- from 500 on, but 501.
pub should_retry_iff :
    (r : TransportResult)
    → (should_retry r ≡ true) ↔ (
        (r.error_message ≢ "")
        ⊎ ((r.error_message ≡ "")
            × ((r.status_code ≡ 408)
                ⊎ (r.status_code ≡ 429)
                ⊎ ((500 ≤ r.status_code) × (r.status_code ≢ 501)))))
unfolding should_retry
should_retry_iff r = elim (Bool-cases (str_eq r.error_message "")) [
  | inl e ↦
      let blank : r.error_message ≡ "" = (eq_iff r.error_message "").0 e in
      (λ h. inr (blank, ground arith), λ h. ground arith)
  | inr e ↦ (λ h. inl (λ b. cc ((eq_iff r.error_message "").1 b)), λ h. ground arith)
]

-- No attempt is made again after a success, a duplicate included.
pub success_is_final :
    (t : HttpTransport) (net : Network) (n : ℕ)
    → is_success (execute t net n) ≡ true
    → should_retry (execute t net n) ≡ false
unfolding execute is_success should_retry
success_is_final t net n h = final (net.exchange n) h
  where
    final :
        (x : Exchange)
        → is_success (result_of t net n x) ≡ true
        → should_retry (result_of t net n x) ≡ false
    final (failed m) h = ground arith
    final (response s b) h = ground arith

module _ (t : HttpTransport) (net : Network) where
  -- How a request goes on from its attempt number `n`, and the result that it ends with.
  pub data Runs : ℕ → TransportResult → Type 0 where
    final : {n : ℕ} → should_retry (execute t net n) ≡ false → Runs n (execute t net n)
    spent : {n : ℕ} → t.max_retries + 1 ≤ n → Runs n (execute t net n)
    stopped :
        {n : ℕ}
        → should_retry (execute t net n) ≡ true
        → n < t.max_retries + 1
        → net.waits n ≡ false
        → Runs n (cancelled net (execute t net n))
    again :
        {n : ℕ} {r : TransportResult}
        → should_retry (execute t net n) ≡ true
        → n < t.max_retries + 1
        → net.waits n ≡ true
        → Runs (n + 1) r
        → Runs n r

  -- One round of the loop, given what the next rounds end with.
  round-Runs :
      (n : ℕ) (delays : List ℤ) (rest : TransportResult × List ℤ)
      → (n < t.max_retries + 1 → Runs (n + 1) rest.0)
      → Runs n
          (if not (should_retry (execute t net n)) || leb (t.max_retries + 1) n
            then (execute t net n, delays)
            else if not (net.waits n)
            then (cancelled net (execute t net n), backoff_delay t.retry_delay n ∷ delays)
            else rest).0
  round-Runs n delays rest next =
      elim (Bool-cases (not (should_retry (execute t net n)) || leb (t.max_retries + 1) n)) [
        | inl s ↦ rw s (elim (Bool-cases (should_retry (execute t net n))) [
          | inl y ↦ spent (ground arith)
          | inr y ↦ final y
        ])
        | inr s ↦
            let retried : should_retry (execute t net n) ≡ true = ground arith in
            let more : n < t.max_retries + 1 = ground arith in
            rw s (elim (Bool-cases (net.waits n)) [
              | inl w ↦ rw w (again retried more w (next more))
              | inr w ↦ rw w (stopped retried more w)
            ])
      ]

  attempts_from-Runs :
      (left n : ℕ) (r : TransportResult) (delays : List ℤ)
      → n + suc left ≡ t.max_retries + 2
      → Runs n (attempts_from t net (suc left) n r delays).0
  unfolding attempts_from
  attempts_from-Runs zero n r delays e = round-Runs n delays _ (λ more. absurd (omega arith))
  attempts_from-Runs (suc left) n r delays e = round-Runs n delays _ (λ more.
      attempts_from-Runs left (n + 1) (execute t net n) (backoff_delay t.retry_delay n ∷ delays)
        (omega arith))

  -- The attempt that gave the result.
  attempts_of : (n : ℕ) → (execute t net n).attempts ≡ n
  unfolding execute
  attempts_of n = result (net.exchange n)
    where
      result : (x : Exchange) → (result_of t net n x).attempts ≡ n
      result (failed m) = refl
      result (response s b) = refl

  cancelled_attempts : (r : TransportResult) → (cancelled net r).attempts ≡ r.attempts
  cancelled_attempts r = ground arith

  Runs-attempts :
      (n : ℕ) (r : TransportResult)
      → Runs n r
      → n ≤ t.max_retries + 1
      → (n ≤ r.attempts) × (r.attempts ≤ t.max_retries + 1)
  Runs-attempts n r (final e) h = omega (arith, attempts_of n)
  Runs-attempts n r (spent e) h = omega (arith, attempts_of n)
  Runs-attempts n r (stopped e m w) h =
      omega (arith, attempts_of n, cancelled_attempts (execute t net n))
  Runs-attempts n r (again e m w rest) h = omega (arith, Runs-attempts (n + 1) r rest (omega arith))

  Runs-exhausts :
      (n : ℕ) (r : TransportResult)
      → ((j : ℕ) → net.waits j ≡ true)
      → Runs n r
      → n ≤ t.max_retries + 1
      → (should_retry r ≡ false) ⊎ (r.attempts ≡ t.max_retries + 1)
  Runs-exhausts n r all (final e) h = inl e
  Runs-exhausts n r all (spent e) h = inr (omega (arith, attempts_of n))
  Runs-exhausts n r all (stopped e m w) h = absurd (let f : false ≡ true = sym w ∙ all n in cc)
  Runs-exhausts n r all (again e m w rest) h = Runs-exhausts (n + 1) r all rest (omega arith)

-- A request whose payload has a JSON form makes its first attempt, goes on exactly while the result is to
-- be retried, attempts are left and the wait is not cut short, and returns the last attempt's result, with
-- the context's error if the wait was cut short and the result has none; it makes from one attempt to one
-- more than the retries that are configured.
pub request-Runs :
    (t : HttpTransport) (net : Network)
    → net.marshal_error ≡ none
    → Runs t net 1 (request t net).0
      × (1 ≤ (request t net).0.attempts)
      × ((request t net).0.attempts ≤ t.max_retries + 1)
unfolding request
request-Runs t net e =
    let first : TransportResult × List ℤ = requested t net none in
    let runs = attempts_from-Runs t net t.max_retries 1 _ [] (omega arith) in
    let same : first.0 ≡ (request t net).0 = ap (λ m. (requested t net m).0) (sym e) in
    let (least, most) = Runs-attempts t net 1 first.0 runs (omega arith) in
    rw (← same) (runs, least, most)

-- Unless a wait is cut short, a request ends with a result that is final or with its last attempt.
pub request_exhausts :
    (t : HttpTransport) (net : Network)
    → net.marshal_error ≡ none
    → ((j : ℕ) → net.waits j ≡ true)
    → (should_retry (request t net).0 ≡ false) ⊎ ((request t net).0.attempts ≡ t.max_retries + 1)
request_exhausts t net e all =
    Runs-exhausts t net 1 (request t net).0 all (request-Runs t net e).0 (omega arith)
