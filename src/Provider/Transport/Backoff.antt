-- ===== src/Provider/Transport/Backoff.antt =====
-- providers/duckbug/http_transport.go: the delays between attempts.
use duckbug_go.Base.{
  ℕ, zero, suc, ◌-◌, ◌*◌, ◌%◌, ◌^◌, ◌≤◌, ◌<◌, leb, false, ◌≡◌, ap, Bool-cases, inl, inr, arith,
}
use duckbug_go.Base.Int.{pos, wrap_int64}
use duckbug_go.Provider.Transport.{backoff_delay}
use native.Mathlib.Nat.{pow-suc}

wrap_small : (n : ℕ) → n < 2 ^ 63 → wrap_int64 n ≡ pos n
wrap_small n h = ground arith

wrap_exact :
    (base power : ℕ)
    → 0 < base
    → base * power < 2 ^ 63
    → wrap_int64 (base * (power % 2 ^ 64)) ≡ pos (base * power)
wrap_exact base power b h =
    let small : power ≤ base * power = grind arith in
    let whole : power % 2 ^ 64 ≡ power = omega arith in rw whole (wrap_small (base * power) h)

-- As long as it fits in 63 bits, the delay after the attempt number n is the base times 2 ^ (n - 1).
pub backoff_delay-exact :
    (base n : ℕ)
    → 1 ≤ n
    → 0 < base
    → base * 2 ^ (n - 1) < 2 ^ 63
    → backoff_delay base n ≡ pos (base * 2 ^ (n - 1))
unfolding backoff_delay
backoff_delay-exact base n one b h = elim (Bool-cases (leb n 1)) [
  | inl e ↦ let first : n ≡ 1 = ground arith in rw first (ap pos (omega arith))
  | inr e ↦ rw e (wrap_exact base (2 ^ (n - 1)) b h)
]

power_above : (k : ℕ) → 64 ≤ k → 2 ^ k % 2 ^ 64 ≡ 0
power_above zero h = absurd (omega arith)
power_above (suc k) h = elim (Bool-cases (leb 64 k)) [
  | inl e ↦ omega (arith, power_above k (ground arith), pow-suc 2 k)
  | inr e ↦ let last : k ≡ 63 = ground arith in rw last
]

-- From the attempt number 65 on there is no delay at all, whatever the base is.
pub backoff_delay-vanishes : (base n : ℕ) → 65 ≤ n → backoff_delay base n ≡ pos 0
unfolding backoff_delay
backoff_delay-vanishes base n h =
    let gone : 2 ^ (n - 1) % 2 ^ 64 ≡ 0 = power_above (n - 1) (omega arith) in
    let later : leb n 1 ≡ false = ground arith in
    let none_left : base * 0 ≡ 0 = omega arith in rw (later, gone, none_left)
