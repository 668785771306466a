-- ===== src/Errors.antt =====
-- Go error values: the package-level errors of internal/application and internal/adapter/kafka, the
-- structured errors with their chains, and `errors.Is` and `errors.As` as walks along a chain.
-- Only the fixed part of a formatted message is kept; no code of the program reads the text of an error.
use Prim.Native.Nat.{ℕ}
use mathlib.Core.Logic.{ite}
use variable_star_classifica.Prelude.{
  ◌≡◌, refl, ◌⊎◌, inl, inr, Bool, true, false, Option, none, some, String,
}

-- The errors that are declared as package variables, and the two of package context.
pub data Sentinel : Type 0 where
  context_canceled context_deadline_exceeded : Sentinel
  current_classification_not_found compatible_coarse_not_found classification_run_conflict :
      Sentinel
  light_curve_revision_not_found light_curve_revision_not_ready : Sentinel
  light_curve_revision_inconsistent light_curve_source_unavailable : Sentinel
  light_curve_revision_identity_mismatch light_curve_epoch_count_mismatch : Sentinel
  insufficient_light_curve_epochs too_many_light_curve_epochs : Sentinel
  invalid_observation_time invalid_magnitude invalid_magnitude_error : Sentinel
  duplicate_observation_time : Sentinel
  model_bundle_not_found serving_bundle_not_found : Sentinel
  invalid_model_bundle_metadata invalid_compatible_coarse_result : Sentinel
  invalid_coarse_mode_selection invalid_coarse_source_mapping : Sentinel
  invalid_classification_run_build invalid_classification_result_message : Sentinel
  invalid_binary_tensor invalid_binary_infer_request invalid_binary_infer_response : Sentinel
  invalid_classification_input invalid_classification_output : Sentinel
  offset_not_tracked offset_already_tracked rebalance_yielded : Sentinel

pub Sentinel-discrete : Discrete Sentinel
Sentinel-discrete = hlevel

-- ClassificationWorkerErrorClass
pub data ErrorClass : Type 0 where
  unspecified retryable permanent cancelled : ErrorClass

pub ErrorClass-discrete : Discrete ErrorClass
ErrorClass-discrete = hlevel

-- ClassificationWorkerOperation
pub data Operation : Type 0 where
  decode_command prepare_input resolve_bundle classify build_run build_result : Operation
  publish_result build_command_dlq publish_command_dlq retry_wait : Operation

pub data GoError : Type 0 where
  message : String → GoError  -- errors.New, and fmt.Errorf with no %w
  field_message : String → String → GoError  -- the same, about a named field
  sentinel : Sentinel → GoError
  wrap : String → GoError → GoError  -- fmt.Errorf("text: %w", err)
  candidate_error : String → String → GoError → GoError  -- PermanentCandidateMessageError
  command_error : String → String → GoError → GoError  -- PermanentClassificationCommandError
  result_error : String → String → GoError → GoError  -- PermanentClassificationResultError
  worker_error : String → ErrorClass → Operation → GoError → GoError  -- ClassificationWorkerError
  classified_cause : ErrorClass → String → GoError  -- a ClassificationWorkerClassifiedCause
  http_status : ℕ → GoError  -- an error with HTTPStatusCode()
  network : GoError  -- a net.Error

-- fmt.Errorf("%w: text", sentinel)
abbrev pub because : Sentinel → String → GoError
because s text = wrap text (sentinel s)

-- The value that `errors.As` finds for *ClassificationWorkerError.
pub record WorkerError : Type 0 where
  pub code : String
  pub class : ErrorClass
  pub operation : Operation
  pub cause : GoError

-- The fields of PermanentClassificationCommandError, PermanentCandidateMessageError and
-- PermanentClassificationResultError.
pub record MessageError : Type 0 where
  pub code : String
  pub field : String
  pub err : GoError

-- errors.Is(err, s)
unfoldable pub is : Sentinel → GoError → Bool
is s (message m) = false
is s (field_message f m) = false
is s (sentinel t) = ite (Sentinel-discrete s t) true false
is s (wrap m e) = is s e
is s (candidate_error c f e) = is s e
is s (command_error c f e) = is s e
is s (result_error c f e) = is s e
is s (worker_error c k o e) = is s e
is s (classified_cause k c) = false
is s (http_status n) = false
is s network = false

-- errors.As(err, &workerError)
unfoldable pub as_worker_error : GoError → Option WorkerError
as_worker_error (wrap m e) = as_worker_error e
as_worker_error (candidate_error c f e) = as_worker_error e
as_worker_error (command_error c f e) = as_worker_error e
as_worker_error (result_error c f e) = as_worker_error e
as_worker_error (worker_error c k o e) =
    some (record { code = c; class = k; operation = o; cause = e })
as_worker_error _ = none

-- errors.As(err, &commandError)
unfoldable pub as_command_error : GoError → Option MessageError
as_command_error (wrap m e) = as_command_error e
as_command_error (candidate_error c f e) = as_command_error e
as_command_error (command_error c f e) = some (record { code = c; field = f; err = e })
as_command_error (result_error c f e) = as_command_error e
as_command_error (worker_error c k o e) = as_command_error e
as_command_error _ = none

-- errors.As(err, &candidateError)
unfoldable pub as_candidate_error : GoError → Option MessageError
as_candidate_error (wrap m e) = as_candidate_error e
as_candidate_error (candidate_error c f e) = some (record { code = c; field = f; err = e })
as_candidate_error (command_error c f e) = as_candidate_error e
as_candidate_error (result_error c f e) = as_candidate_error e
as_candidate_error (worker_error c k o e) = as_candidate_error e
as_candidate_error _ = none

-- errors.As(err, &permanentError)
unfoldable pub as_result_error : GoError → Option MessageError
as_result_error (wrap m e) = as_result_error e
as_result_error (candidate_error c f e) = as_result_error e
as_result_error (command_error c f e) = as_result_error e
as_result_error (result_error c f e) = some (record { code = c; field = f; err = e })
as_result_error (worker_error c k o e) = as_result_error e
as_result_error _ = none

-- errors.As(err, &classified)
unfoldable pub as_classified_cause : GoError → Option (ErrorClass × String)
as_classified_cause (wrap m e) = as_classified_cause e
as_classified_cause (candidate_error c f e) = as_classified_cause e
as_classified_cause (command_error c f e) = as_classified_cause e
as_classified_cause (result_error c f e) = as_classified_cause e
as_classified_cause (worker_error c k o e) = as_classified_cause e
as_classified_cause (classified_cause k c) = some (k, c)
as_classified_cause _ = none

-- errors.As(err, &statusCause)
unfoldable pub as_http_status : GoError → Option ℕ
as_http_status (wrap m e) = as_http_status e
as_http_status (candidate_error c f e) = as_http_status e
as_http_status (command_error c f e) = as_http_status e
as_http_status (result_error c f e) = as_http_status e
as_http_status (worker_error c k o e) = as_http_status e
as_http_status (http_status n) = some n
as_http_status _ = none

-- errors.As(err, &networkError)
unfoldable pub as_network : GoError → Bool
as_network (wrap m e) = as_network e
as_network (candidate_error c f e) = as_network e
as_network (command_error c f e) = as_network e
as_network (result_error c f e) = as_network e
as_network (worker_error c k o e) = as_network e
as_network network = true
as_network _ = false

-- A Go call that returns a value and an error: one of the two is used.
pub data Result {ℓ} (A : Type ℓ) : Type ℓ where
  ok : A → Result A
  err : GoError → Result A

infixl 5 ◌>>=◌ ◌>>◌
-- The rest of the function runs on the value, unless the call failed.
module _ {ℓ κ} {A : Type ℓ} {B : Type κ} where
  abbrev pub ◌>>=◌ : Result A → (A → Result B) → Result B
  ◌>>=◌ (ok value) rest = rest value
  ◌>>=◌ (err failure) rest = err failure

-- The same for a call that returns only an error.
abbrev pub ◌>>◌ {κ} : {B : Type κ} → Result (Unit {0}) → Result B → Result B
◌>>◌ call rest = call >>= λ nothing. rest

-- if failed { return err }
abbrev pub refuse_if : Bool → GoError → Result (Unit {0})
refuse_if true e = err e
refuse_if false e = ok tt

-- if err != nil { return fmt.Errorf("text: %w", err) }
abbrev pub context {ℓ} : {A : Type ℓ} → String → Result A → Result A
context text (ok a) = ok a
context text (err e) = err (wrap text e)

-- A function that returns only an error: `none` is nil.
abbrev pub check : Option GoError → Result (Unit {0})
check none = ok tt
check (some e) = err e

pub Result-cases {ℓ} :
    {A : Type ℓ} (r : Result A) → ((a : A) × (r ≡ ok a)) ⊎ ((e : GoError) × (r ≡ err e))
Result-cases (ok a) = inl (a, refl)
Result-cases (err e) = inr (e, refl)

pub is-sentinel : (s : Sentinel) → is s (sentinel s) ≡ true
unfolding is
is-sentinel s = elim (Sentinel-discrete s s) as (λ d. ite d true false ≡ true) [
  | yes _ ↦ refl
  | no differ ↦ absurd (differ refl)
]

pub as_worker_error-sentinel : (s : Sentinel) → as_worker_error (sentinel s) ≡ none
unfolding as_worker_error
as_worker_error-sentinel s = refl

-- The value of a call that returned one.
abbrev pub value_or {ℓ} : {A : Type ℓ} → A → Result A → A
value_or d (ok a) = a
value_or d (err e) = d
