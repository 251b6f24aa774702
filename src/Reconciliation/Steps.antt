-- ===== src/Reconciliation/Steps.antt =====
-- internal/application/reconciliation/steps.go: the records of steps and of failures.
use many_router.Base.{
  ℕ, zero, suc, ◌+◌, ◌-◌, ◌*◌, ◌^◌, ◌≤◌, Bool, true, false, [], ◌∷◌, ◌++◌, Text, Option, none, some,
  Time, Result, ok, err, if◌then◌else◌, ◌≡◌, arith, leb, ltb,
}
use many_router.Base.Int.{ℤ, pos, negsuc, ◌+ℤ◌}
use many_router.Reconciliation.Types.{
  FailureKind, FailureKind.retryable, FailureKind.uncertain, Failure, failure, Error, Error.failed,
  other_error, Bundle, StepRecord, StepStatus, FailureRecord,
}
use many_router.Reconciliation.Actions.{
  record_step, fail_operation, Environment, Return, Action, pure, return_with, or_return, ◌>>=◌,
  now, perform,
}

abbrev pub is_retryable : FailureKind → Bool
is_retryable retryable = true
is_retryable uncertain = true
is_retryable _ = false

abbrev pub step_status : FailureKind → StepStatus
step_status uncertain = StepStatus.uncertain
step_status _ = StepStatus.failed

unfoldable pub classify_failure : Error → Failure
classify_failure (failed f) = f
classify_failure (other_error s) = failure retryable "internal_error"

-- The exponent of the delay before an attempt, from 0 to 5.
unfoldable pub delay_exponent : ℤ → ℕ
delay_exponent (negsuc n) = 0
delay_exponent (pos n) = if ltb n 1 then 0 else if ltb 6 n then 5 else n - 1

-- A time.Duration, in nanoseconds.
unfoldable pub retry_delay : ℤ → ℕ
retry_delay attempt = 2 ^ delay_exponent attempt * 30 * 1000000000

unfoldable pub record_success :
    Environment → Bundle → Text → Time → Action (Result Error (Unit {0}))
record_success env bundle key started_at = do
  finished_at ← now env
  perform env (
      record_step (record {
        operation_id = bundle.operation.id;
        key = key;
        status = StepStatus.succeeded;
        error_code = "";
        started_at = started_at;
        finished_at = finished_at;
      }))

abbrev pub failure_step : Bundle → Text → Failure → Time → StepRecord
failure_step bundle step failure now = record {
  operation_id = bundle.operation.id;
  key = step;
  status = step_status failure.kind;
  error_code = failure.code;
  started_at = now;
  finished_at = now;
}

abbrev pub next_attempt : Bundle → Failure → Time → Option Time
next_attempt bundle failure now =
    if is_retryable failure.kind
    then some (now + retry_delay (bundle.operation.attempt +ℤ pos 1))
    else none

abbrev pub failure_record : Bundle → Text → Failure → Time → FailureRecord
failure_record bundle step failure now = record {
  operation_id = bundle.operation.id;
  site_id = bundle.operation.site_id;
  relation_id = bundle.operation.relation_id;
  route_plan_id = bundle.operation.route_plan_id;
  kind = failure.kind;
  step = step;
  code = failure.code;
  next_attempt_at = next_attempt bundle failure now;
  occurred_at = now;
}

abbrev pub errors_of : Result Error (Unit {0}) → Return
errors_of (ok u) = []
errors_of (err e) = e ∷ []

-- What finishFailure returns, given what the store answered.
unfoldable pub failure_return : Failure → (recorded persisted : Return) → Return
failure_return failure [] [] = if is_retryable failure.kind then failed failure ∷ [] else []
failure_return failure recorded persisted = failed failure ∷ recorded ++ persisted

unfoldable pub finish_failure {ℓ} : {A : Type ℓ} → Environment → Bundle → Text → Error → Action A
finish_failure env bundle step e = do
  let failure = classify_failure e
  at_time ← now env
  recorded ← perform env (record_step (failure_step bundle step failure at_time))
  persisted ← perform env (fail_operation (failure_record bundle step failure at_time))
  return_with (failure_return failure (errors_of recorded) (errors_of persisted))

-- `if err != nil { return s.finishFailure(...) }`
unfoldable pub or_fail {ℓ} : {A : Type ℓ} → Environment → Bundle → Text → Result Error A → Action A
or_fail env bundle step (ok a) = pure a
or_fail env bundle step (err e) = finish_failure env bundle step e

-- recordSuccess, and the return of its error.
unfoldable pub record_or_return : Environment → Bundle → Text → Time → Action (Unit {0})
record_or_return env bundle key started_at = record_success env bundle key started_at >>= or_return

late_exponent : (n : ℕ) → leb 6 n ≡ true → delay_exponent (pos n) ≡ 5
unfolding delay_exponent
late_exponent n h = ground arith

-- The delay is from 30 to 960 seconds, and does not shrink from an attempt to the next.
pub retry_delay_mono :
    (n : ℕ)
    → (30 * 1000000000 ≤ retry_delay (pos n))
      × (retry_delay (pos n) ≤ 960 * 1000000000)
      × (retry_delay (pos n) ≤ retry_delay (pos (n + 1)))
unfolding retry_delay delay_exponent
retry_delay_mono zero = (omega arith, omega arith, omega arith)
retry_delay_mono (suc zero) = (omega arith, omega arith, omega arith)
retry_delay_mono (suc (suc zero)) = (omega arith, omega arith, omega arith)
retry_delay_mono (suc (suc (suc zero))) = (omega arith, omega arith, omega arith)
retry_delay_mono (suc (suc (suc (suc zero)))) = (omega arith, omega arith, omega arith)
retry_delay_mono (suc (suc (suc (suc (suc zero))))) = (omega arith, omega arith, omega arith)
retry_delay_mono (suc (suc (suc (suc (suc (suc zero)))))) = (omega arith, omega arith, omega arith)
retry_delay_mono (suc (suc (suc (suc (suc (suc (suc n))))))) =
    let this = late_exponent (suc (suc (suc (suc (suc (suc (suc n))))))) (ground arith) in
    let next = late_exponent (suc (suc (suc (suc (suc (suc (suc n)))))) + 1) (ground arith) in
    rw (this, next) (omega arith, omega arith, omega arith)

-- `if err != nil { return s.finishFailure(ctx, bundle, step, failure) }`
unfoldable pub or_fail_with {ℓ} :
    {A : Type ℓ} → Environment → Bundle → Text → Failure → Result Error A → Action A
or_fail_with env bundle step failure (ok a) = pure a
or_fail_with env bundle step failure (err e) = finish_failure env bundle step (failed failure)

-- A Failure as an error.
abbrev pub as_error {ℓ} : {A : Type ℓ} → Result Failure A → Result Error A
as_error (ok a) = ok a
as_error (err f) = err (failed f)
