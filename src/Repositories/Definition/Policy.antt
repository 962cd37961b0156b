-- ===== src/Repositories/Definition/Policy.antt =====
-- The retry policy that `getStepRetryPolicy` reads.
use exec_loom.Base.{ℕ, ◌≤◌, Option, none, some, pos, arith}
use exec_loom.Json.Value.{Json, Fields, int}
use exec_loom.Json.Access.{integer_between, object?, field?}
use exec_loom.Repositories.Definition.{retry_policy_of, get_step_retry_policy}

between :
    (lo hi default : ℕ) (v : Option Json)
    → lo ≤ default
    → default ≤ hi
    → (lo ≤ integer_between lo hi default v) × (integer_between lo hi default v ≤ hi)
between lo hi default none above below = (above, below)
between lo hi default (some (int (pos n))) above below = ground arith
between lo hi default (some _) above below = (above, below)

policy_bounds :
    (v : Option Fields)
    → (1 ≤ (retry_policy_of v).max_attempts)
      × ((retry_policy_of v).max_attempts ≤ 10)
      × ((retry_policy_of v).backoff_ms ≤ 300000)
unfolding retry_policy_of
policy_bounds none = (omega arith, omega arith, omega arith)
policy_bounds (some fs) =
    let (some_attempt, few_attempts) =
      between 1 10 1 (field? "maxAttempts" fs) (omega arith) (omega arith) in
    (
      some_attempt,
      few_attempts,
      (between 0 300000 0 (field? "backoffMs" fs) (omega arith) (omega arith)).1,
    )

-- Whatever a definition holds for `retry`, the policy that is read from it allows between 1 and 10
-- attempts and a backoff of at most five minutes.
pub retry_policy_bounds :
    (value : Option Json)
    → (1 ≤ (get_step_retry_policy value).max_attempts)
      × ((get_step_retry_policy value).max_attempts ≤ 10)
      × ((get_step_retry_policy value).backoff_ms ≤ 300000)
unfolding get_step_retry_policy
retry_policy_bounds value = policy_bounds (object? value)
