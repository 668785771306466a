-- ===== src/Application/WorkerErrors.antt =====
-- internal/application/classification_worker_error.go: every error of a processing step becomes a
-- worker error with a stable class and code; the class decides on retry and dead letters.
use variable_star_classifica.Prelude.{
  ℕ, ◌≤◌, ap, ◌↔◌, ◌≡◌, refl, Bool, true, ◌&&◌, ◌||◌, Option, none, some, String, leb, ◌==◌,
  if◌then◌else◌, ◌⊎◌, inl, inr, arith, Option-cases,
}
use variable_star_classifica.Errors.{
  Sentinel, context_canceled, context_deadline_exceeded, light_curve_revision_not_found,
  light_curve_revision_not_ready, light_curve_source_unavailable, light_curve_revision_inconsistent,
  light_curve_revision_identity_mismatch, light_curve_epoch_count_mismatch,
  insufficient_light_curve_epochs, too_many_light_curve_epochs, invalid_observation_time,
  invalid_magnitude, invalid_magnitude_error, duplicate_observation_time, model_bundle_not_found,
  serving_bundle_not_found, invalid_model_bundle_metadata, invalid_compatible_coarse_result,
  invalid_coarse_mode_selection, invalid_classification_run_build,
  invalid_classification_result_message, ErrorClass, retryable, permanent, cancelled, Operation,
  prepare_input, resolve_bundle, classify, publish_result, publish_command_dlq, build_command_dlq,
  GoError, worker_error, WorkerError, MessageError, is, as_worker_error, as_command_error,
  as_classified_cause, as_http_status, as_network,
}

-- errors.Is(cause, s) for one of some sentinels.
abbrev is_any : Sentinel → Sentinel → GoError → Bool
is_any s t e = is s e || is t e

-- The two errors that a context ends with.
abbrev pub is_context_error : GoError → Bool
is_context_error = is_any context_canceled context_deadline_exceeded

abbrev pub is_invalid_light_curve : GoError → Bool
is_invalid_light_curve e =
    is light_curve_revision_inconsistent e
    || is light_curve_revision_identity_mismatch e
    || is light_curve_epoch_count_mismatch e
    || is insufficient_light_curve_epochs e
    || is too_many_light_curve_epochs e
    || is invalid_observation_time e
    || is invalid_magnitude e
    || is invalid_magnitude_error e
    || is duplicate_observation_time e

-- classifyClassificationWorkerHTTPStatus
unfoldable pub classify_http_status : ℕ → ErrorClass × String
classify_http_status status =
    if status == 408
      || status == 425
      || status == 429
      || status == 500
      || status == 502
      || status == 503
      || status == 504
    then (retryable, "TRITON_UNAVAILABLE")
    else if leb 500 status && leb status 599
    then (retryable, "TRITON_UNAVAILABLE")
    else (permanent, "TRITON_REQUEST_REJECTED")

-- The last `switch`: nothing is known but the step that failed.
unfoldable pub classify_by_operation : Operation → ErrorClass × String
classify_by_operation prepare_input = (retryable, "DEPENDENCY_UNAVAILABLE")
classify_by_operation resolve_bundle = (retryable, "DEPENDENCY_UNAVAILABLE")
classify_by_operation classify = (retryable, "DEPENDENCY_UNAVAILABLE")
classify_by_operation publish_result = (retryable, "RESULT_PUBLISH_FAILED")
classify_by_operation publish_command_dlq = (retryable, "COMMAND_DLQ_PUBLISH_FAILED")
classify_by_operation build_command_dlq = (permanent, "COMMAND_DLQ_INVALID")
classify_by_operation _ = (permanent, "WORKER_INTERNAL_INVALID")

-- What is left when no sentinel is in the chain.
abbrev pub classify_dependency : Operation → GoError → Option ℕ → ErrorClass × String
classify_dependency operation cause (some status) = classify_http_status status
classify_dependency operation cause none =
    if as_network cause
    then (retryable, "DEPENDENCY_UNAVAILABLE")
    else classify_by_operation operation

abbrev pub classify_sentinel : Operation → GoError → ErrorClass × String
classify_sentinel operation cause =
    if is light_curve_revision_not_found cause
    then (permanent, "LIGHT_CURVE_NOT_FOUND")
    else if is light_curve_revision_not_ready cause
    then (retryable, "LIGHT_CURVE_NOT_READY")
    else if is light_curve_source_unavailable cause
    then (retryable, "LIGHT_CURVE_UNAVAILABLE")
    else if is_invalid_light_curve cause
    then (permanent, "LIGHT_CURVE_INVALID")
    else if is_any model_bundle_not_found serving_bundle_not_found cause
    then (permanent, "MODEL_BUNDLE_NOT_FOUND")
    else if is invalid_model_bundle_metadata cause
        || is invalid_compatible_coarse_result cause
        || is invalid_coarse_mode_selection cause
    then (permanent, "MODEL_BUNDLE_INVALID")
    else if is_any invalid_classification_run_build invalid_classification_result_message cause
    then (permanent, "CLASSIFICATION_RESULT_INVALID")
    else classify_dependency operation cause (as_http_status cause)

abbrev pub classify_command : Operation → GoError → Option MessageError → ErrorClass × String
classify_command operation cause (some command) = (permanent, command.code)
classify_command operation cause none = classify_sentinel operation cause

abbrev pub classify_classified :
    Operation → GoError → Option (ErrorClass × String) → ErrorClass × String
classify_classified operation cause (some declared) = declared
classify_classified operation cause none = classify_command operation cause (as_command_error cause)

-- classifyClassificationWorkerCause
unfoldable pub classify_cause : Operation → GoError → ErrorClass × String
classify_cause operation cause =
    if is_context_error cause
    then (cancelled, "WORKER_CANCELLED")
    else classify_classified operation cause (as_classified_cause cause)

abbrev wrap_new : Operation → GoError → Option WorkerError → GoError
wrap_new operation cause (some existing) = cause
wrap_new operation cause none =
    let (class, code) = classify_cause operation cause in worker_error code class operation cause

-- WrapClassificationWorkerError, for an error that is not nil
unfoldable pub wrap_worker_error : Operation → GoError → GoError
wrap_worker_error operation cause = wrap_new operation cause (as_worker_error cause)

-- What a wrapped error promises: a worker error is found in it, the chain below is kept, and to wrap it
-- again for any step changes nothing.
pub record IsWrapped (cause wrapped : GoError) : Type 0 where
  pub found : WorkerError
  pub as_worker : as_worker_error wrapped ≡ some found
  pub chain : (s : Sentinel) → is s wrapped ≡ is s cause
  pub once : (operation : Operation) → wrap_worker_error operation wrapped ≡ wrapped

wrap_existing :
    (operation : Operation) (cause : GoError) (found : WorkerError)
    → as_worker_error cause ≡ some found
    → wrap_worker_error operation cause ≡ cause
unfolding wrap_worker_error
wrap_existing operation cause found e = rw e

wrap_fresh :
    (operation : Operation) (cause : GoError)
    → as_worker_error cause ≡ none
    → wrap_worker_error operation cause
      ≡ worker_error
          (classify_cause operation cause).1
          (classify_cause operation cause).0
          operation
          cause
unfolding wrap_worker_error
wrap_fresh operation cause e = rw e

fresh-IsWrapped :
    (operation : Operation) (cause : GoError) (class : ErrorClass) (code : String)
    → IsWrapped cause (worker_error code class operation cause)
unfolding is as_worker_error
fresh-IsWrapped operation cause class code = record {
  found = record { code = code; class = class; operation = operation; cause = cause };
  as_worker = refl;
  chain = λ s. refl;
  once = λ other. wrap_existing other (worker_error code class operation cause) _ refl;
}

-- WrapClassificationWorkerError always gives a worker error, keeps every sentinel of the chain
-- reachable, and is idempotent, whatever the step it is called for the second time.
pub wrap_worker_error-IsWrapped :
    (operation : Operation) (cause : GoError) → IsWrapped cause (wrap_worker_error operation cause)
wrap_worker_error-IsWrapped operation cause = elim (Option-cases (as_worker_error cause)) [
  | inl fresh ↦ rw (wrap_fresh operation cause fresh) (
      fresh-IsWrapped operation cause (classify_cause operation cause).0
        (classify_cause operation cause).1)
  | inr (found, e) ↦ rw (wrap_existing operation cause found e) record {
    found = found;
    as_worker = e;
    chain = λ s. refl;
    once = λ other. wrap_existing other cause found e;
  }
]

-- A Triton response is worth a retry exactly when its status is 408, 425, 429 or any 5xx.
pub classify_http_status-retryable_iff :
    (status : ℕ)
    → ((classify_http_status status).0 ≡ retryable)
      ↔ ((status ≡ 408) ⊎ (status ≡ 425) ⊎ (status ≡ 429) ⊎ ((500 ≤ status) × (status ≤ 599)))
unfolding classify_http_status
classify_http_status-retryable_iff status = (λ h. ground arith, λ h. ground arith)

-- An error that ends a context and was not classified before is cancelled, whichever step it comes
-- from: it is neither retried nor written off as permanent.
pub wrap_worker_error-cancelled :
    (operation : Operation) (cause : GoError)
    → as_worker_error cause ≡ none
    → is_context_error cause ≡ true
    → (w : WorkerError) × (as_worker_error (wrap_worker_error operation cause) ≡ some w)
      × (w.class ≡ cancelled)
      × (w.cause ≡ cause)
unfolding classify_cause as_worker_error
wrap_worker_error-cancelled operation cause fresh over = (
  record {
    code = (classify_cause operation cause).1;
    class = (classify_cause operation cause).0;
    operation = operation;
    cause = cause;
  },
  ap as_worker_error (wrap_fresh operation cause fresh),
  rw over,
  refl,
)
