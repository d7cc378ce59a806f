-- ===== src/Topology/Delays.antt =====
-- The back-off curve of `retryDelayMs`.
use native.Mathlib.Nat.{two-pow-succ}
use contract_driven_messagin.Common.{ℕ, zero, suc, ◌+◌, ◌*◌, ◌^◌, ◌≤◌, ◌≡◌, min, arith}
use contract_driven_messagin.Topology.{retry_delay_ms}

double_pow : (n : ℕ) → 2 ^ suc n ≡ 2 ^ n + 2 ^ n
double_pow n = two-pow-succ n

one-le-pow : (n : ℕ) → 1 ≤ 2 ^ n
one-le-pow zero = omega arith
one-le-pow (suc n) = omega (arith, double_pow n, one-le-pow n)

-- Each further attempt waits exactly twice as long as the one before, until the cap of 30 s takes
-- over; the wait is never longer than the cap and never shorter than a second.
retry_delay_ms-suc :
    (n : ℕ)
    → (retry_delay_ms (suc n) ≡ min (2 * retry_delay_ms n) 30000)
      × (1000 ≤ retry_delay_ms n)
      × (retry_delay_ms n ≤ 30000)
unfolding retry_delay_ms
retry_delay_ms-suc zero = omega arith
retry_delay_ms-suc (suc n) = omega (arith, double_pow n, one-le-pow n)
