-- ===== src/Results.antt =====
-- The results of steps (packages/workflow-core/src/results.ts): `isStepExecutionResult` and
-- `normalizeStepExecutionResult`, which wraps what older versions stored.
use exec_loom.Base.{
  Bool, true, false, ◌&&◌, Option, some, pos, ◌==◌, if◌then◌else◌, is_some, ◌≡◌, refl, inl, inr,
  Bool-cases,
}
use exec_loom.Json.Access.{field?}
use exec_loom.Json.Value.{Json, int, fraction, str, obj, end, field}

-- `=== stepExecutionResultVersion`
abbrev is_version : Option Json → Bool
is_version (some (int (pos n))) = n == 1
is_version _ = false

abbrev is_string : Option Json → Bool
is_string (some (str s)) = true
is_string _ = false

abbrev is_number : Option Json → Bool
is_number (some (int n)) = true
is_number (some (fraction x)) = true
is_number _ = false

abbrev is_metadata : Option Json → Bool
is_metadata (some (obj m)) =
    is_version (field? "resultVersion" m)
    && (is_string (field? "stepType" m) && is_number (field? "durationMs" m))
is_metadata _ = false

unfoldable pub is_step_execution_result : Json → Bool
unfolding field?
is_step_execution_result (obj v) = is_some (field? "output" v) && is_metadata (field? "metadata" v)
is_step_execution_result _ = false

abbrev legacy_metadata : Json
legacy_metadata = obj (
    field "resultVersion" (int (pos 1))
      (field "stepType" (str "legacy") (field "durationMs" (int (pos 0)) end)))

unfoldable pub normalize_step_execution_result : Json → Json
unfolding is_step_execution_result
normalize_step_execution_result v =
    if is_step_execution_result v
    then v
    else obj (field "output" v (field "metadata" legacy_metadata end))

-- Whatever value was stored for a step, its normalized form is a step result in the current format, and
-- normalizing it again changes nothing.
pub normalize_step_execution_result_lem :
    (v : Json)
    → (is_step_execution_result (normalize_step_execution_result v) ≡ true)
      × (normalize_step_execution_result (normalize_step_execution_result v)
          ≡ normalize_step_execution_result v)
unfolding normalize_step_execution_result is_step_execution_result
normalize_step_execution_result_lem v = elim (Bool-cases (is_step_execution_result v)) [
  | inl e ↦ rw e (e, rw e refl)
  | inr e ↦ rw e (refl, refl)
]
