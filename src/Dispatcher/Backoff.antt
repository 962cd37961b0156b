-- ===== src/Dispatcher/Backoff.antt =====
-- The delay before a failed publication is tried again.
use exec_loom.Base.{ℕ, zero, suc, ◌-◌, ◌≤◌, ◌≡◌, refl, min, arith}
use exec_loom.Dispatcher.{get_outbox_dispatch_backoff_ms}

settled_exponent : (n : ℕ) → min (suc (suc (suc (suc (suc (suc (suc n)))))) - 1) 6 ≡ 6
settled_exponent n = omega arith

-- From the seventh attempt on the delay is the largest.
backoff_settles :
    (n : ℕ) → get_outbox_dispatch_backoff_ms (suc (suc (suc (suc (suc (suc (suc n))))))) ≡ 60000
unfolding get_outbox_dispatch_backoff_ms
backoff_settles n = rw (settled_exponent n) refl

-- The delay lies between a second and a minute, and never shrinks with a further attempt.
pub backoff_bounds :
    (n : ℕ)
    → (1000 ≤ get_outbox_dispatch_backoff_ms n)
      × (get_outbox_dispatch_backoff_ms n ≤ 60000)
      × (get_outbox_dispatch_backoff_ms n ≤ get_outbox_dispatch_backoff_ms (suc n))
unfolding get_outbox_dispatch_backoff_ms
backoff_bounds zero = (omega arith, omega arith, omega arith)
backoff_bounds (suc zero) = (omega arith, omega arith, omega arith)
backoff_bounds (suc (suc zero)) = (omega arith, omega arith, omega arith)
backoff_bounds (suc (suc (suc zero))) = (omega arith, omega arith, omega arith)
backoff_bounds (suc (suc (suc (suc zero)))) = (omega arith, omega arith, omega arith)
backoff_bounds (suc (suc (suc (suc (suc zero))))) = (omega arith, omega arith, omega arith)
backoff_bounds (suc (suc (suc (suc (suc (suc zero)))))) = (omega arith, omega arith, omega arith)
backoff_bounds (suc (suc (suc (suc (suc (suc (suc n))))))) =
    rw (backoff_settles n, backoff_settles (suc n)) (omega arith, omega arith, omega arith)
