-- ===== src/Worker/Inputs/Bounds.antt =====
-- What `getIntegerConfig` lets through.
use exec_loom.Base.{
  ℕ, ◌≤◌, String, Option, none, some, pos, negsuc, leb, inl, inr, arith, Bool-cases, ◌&&◌,
  if◌then◌else◌,
}
use exec_loom.Json.Value.{Json, null, bool, int, fraction, str, arr, obj}
use exec_loom.Worker.Failures.{done, fail, StepFailure, Ensures}
use exec_loom.Worker.Inputs.{get_integer_config}

abbrev pub Between : ℕ → ℕ → ℕ → Type 0
Between lo hi n = (lo ≤ n) × (n ≤ hi)

bounded_lem :
    (n lo hi : ℕ) (f : StepFailure)
    → Ensures (Between lo hi) (if leb lo n && leb n hi then done n else fail f)
unfolding Ensures
bounded_lem n lo hi f = elim (Bool-cases (leb lo n && leb n hi)) [
  | inl e ↦ rw e (ground arith)
  | inr e ↦ rw e tt
]

-- A number that is let through lies in the range, a default too.
pub get_integer_config_bounds :
    (value : Option Json) (default lo hi : ℕ) (label : String)
    → Ensures (Between lo hi) (get_integer_config value default lo hi label)
unfolding get_integer_config Ensures
get_integer_config_bounds none default lo hi label = bounded_lem default lo hi _
get_integer_config_bounds (some null) default lo hi label = bounded_lem default lo hi _
get_integer_config_bounds (some (int (pos n))) default lo hi label = bounded_lem n lo hi _
get_integer_config_bounds (some (int (negsuc n))) default lo hi label = tt
get_integer_config_bounds (some (bool b)) default lo hi label = tt
get_integer_config_bounds (some (fraction x)) default lo hi label = tt
get_integer_config_bounds (some (str s)) default lo hi label = tt
get_integer_config_bounds (some (arr xs)) default lo hi label = tt
get_integer_config_bounds (some (obj fs)) default lo hi label = tt
