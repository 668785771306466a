-- ===== src/Application/Tests.antt =====
-- internal/application: the theorems on a command that fails once, a result that is refused, a light
-- curve of three epochs and the choice of its coarse mode.
use variable_star_classifica.Prelude.{
  ℕ, ◌+◌, ◌≡◌, refl, true, false, List, [], ◌∷◌, Option, none, some, Text, codes, ℤ, pos, ltb,
  if◌then◌else◌, arith,
}
use variable_star_classifica.Prelude.Effects.{World}
use variable_star_classifica.Prelude.Loops.{repeat, repeat_from}
use variable_star_classifica.Errors.{
  is-sentinel, GoError, message, sentinel, worker_error, result_error, network,
  compatible_coarse_not_found, retryable, permanent, classify, WorkerError, as_worker_error,
  as_result_error, ok, err,
}
use variable_star_classifica.Application.Messaging.{InboundMessage, OutboundMessage}
use variable_star_classifica.Application.WorkerErrors.{
  IsWrapped, wrap_worker_error, wrap_worker_error-IsWrapped,
}
use variable_star_classifica.Application.DeadLetters.{
  build_command_dlq_message, build_result_dlq_message, operation_string, dead_letter,
  command_headers,
}
use variable_star_classifica.Application.DeadLetters.Recovery.{
  recover, build_command_dlq_message-recover,
}
use variable_star_classifica.Application.Handlers.{
  Environment, Event, called, retry_delay, wait_retry,
}
use variable_star_classifica.Application.Handlers.Commands.{
  command_handle, dlq_handle, dlq_return, dlq_result, dlq_failure, dlq_class, publish_dead_letter,
  after_publish, retry_handle, attempt_once, after_attempt, after_failure, after_wait, finish,
  observe_attempt, observe_start, observe_finish, is_retryable,
}
use variable_star_classifica.Application.Handlers.Commands.Retry.{
  ContextEnds, IsFinal, retry_handle-IsFinal,
}
use variable_star_classifica.Application.Handlers.Commands.Attempts.{
  Counts, FailsThen, retry_handle-settles,
}
use variable_star_classifica.Application.Handlers.Commands.Acknowledgement.{
  Settled, command_handle-Settled,
}
use variable_star_classifica.Application.Handlers.Results.{
  result_retry_handle, result_dlq_handle, result_dlq_return, result_dlq_failure,
  publish_result_letter, after_result_publish, result_attempt_once, after_result_attempt,
  after_result_failure,
}
use variable_star_classifica.Application.Handlers.Results.Acknowledgement.{
  ResultSettled, result_dlq_handle-ResultSettled,
}
use variable_star_classifica.Application.LightCurves.{
  LightCurveEpoch, LightCurveRevision, prepare_light_curve_revision, check_epochs, check_epoch,
  sort_epochs, insert_epoch, has_duplicate,
}
use variable_star_classifica.Application.LightCurves.Preparation.{
  IsPrepared, prepare_light_curve_revision-IsPrepared,
}
use variable_star_classifica.Application.CoarseMode.{
  Ports, CoarseModeSelection, compute_bootstrap, select, select_found,
  validate_model_bundle_metadata, IsSelection, select-IsSelection,
}

abbrev command : InboundMessage
command = record {
  topic = codes "commands";
  partition = pos 2;
  offset = pos 40;
  key = codes "ZTF18";
  value = codes "payload";
  headers = [];
  timestamp = pos 0;
}

abbrev dlq_topic : Text
dlq_topic = codes "commands.dlq"

-- The context stays, every timer fires, and the broker takes everything.
abbrev quiet : Environment
quiet = record { context_error = λ t. none; woken_by = λ t. none; publish = λ m t. none }

abbrev busy_error : GoError
busy_error = worker_error "TRITON_UNAVAILABLE" retryable classify network

abbrev bad_error : GoError
bad_error = worker_error "COMMAND_KEY_MISSING" permanent classify (message "no key")

-- The worker is busy at first, and then gives the second answer.
abbrev busy_then : Option GoError → InboundMessage → ℕ → Option GoError
busy_then answer m t = if ltb t 3 then some busy_error else answer

abbrev at_start : World Event
at_start = record { tick = 0; trace = [] }

abbrev delays : List ℤ
delays = pos 0 ∷ pos 1000 ∷ []

abbrev bad_worker : WorkerError
bad_worker = record {
  code = "COMMAND_KEY_MISSING";
  class = permanent;
  operation = classify;
  cause = message "no key";
}

abbrev bad_letter : OutboundMessage
bad_letter = dead_letter dlq_topic command (command_headers bad_worker command)

bad_letter_built : build_command_dlq_message dlq_topic command bad_worker ≡ ok bad_letter
unfolding build_command_dlq_message operation_string
bad_letter_built = refl

build_command_dlq_message-recover_example :
    (bad_worker.class ≡ permanent)
    × (bad_letter.topic ≡ dlq_topic)
    × (recover 6 bad_letter ≡ some command)
build_command_dlq_message-recover_example =
    build_command_dlq_message-recover dlq_topic command bad_worker bad_letter bad_letter_built

quiet-ContextEnds : ContextEnds quiet
quiet-ContextEnds = λ t. (tt, tt)

busy_is_retryable : is_retryable busy_error ≡ true
unfolding is_retryable as_worker_error
busy_is_retryable = refl

-- The worker is busy once, and then handles the command.
busy_once : FailsThen quiet (busy_then none) delays command 1 1 1 none
unfolding retry_delay
busy_once = (busy_error, refl, busy_is_retryable, refl, (refl, tt))

retry_handle-settles_example :
    (x : World Event) × (retry_handle quiet (called (busy_then none)) delays 5 command at_start
      ≡ (some none, x))
    × Counts quiet
        (busy_then none)
        delays
        command
        at_start
        x
        (1 + 1)
        1
        (if ltb 0 1 then 1 else 0)
        (if ltb 0 1 then 1 else 0)
retry_handle-settles_example =
    retry_handle-settles quiet (busy_then none) delays command 1 5 at_start none refl busy_once
      (omega arith)

-- The worker is busy once, and then refuses the command, of which a dead letter is published.
abbrev refused_end : World Event
refused_end =
    (command_handle quiet (called (busy_then (some bad_error))) delays dlq_topic 5 command
      at_start).1

refused_returns :
    command_handle quiet (called (busy_then (some bad_error))) delays dlq_topic 5 command at_start
    ≡ (some none, refused_end)
unfolding command_handle dlq_handle dlq_return dlq_result dlq_failure dlq_class publish_dead_letter
    after_publish retry_handle repeat repeat_from attempt_once after_attempt after_failure
    after_wait finish observe_attempt observe_start observe_finish is_retryable as_worker_error
    retry_delay wait_retry build_command_dlq_message operation_string
refused_returns = refl

command_handle-Settled_example : Settled dlq_topic command refused_end.trace
command_handle-Settled_example =
    command_handle-Settled quiet (busy_then (some bad_error)) delays dlq_topic command 5 at_start
      refused_end refused_returns

abbrev given_up_end : World Event
given_up_end =
    (retry_handle quiet (called (busy_then (some bad_error))) delays 5 command at_start).1

given_up :
    retry_handle quiet (called (busy_then (some bad_error))) delays 5 command at_start
    ≡ (some (some bad_error), given_up_end)
unfolding retry_handle repeat repeat_from attempt_once after_attempt after_failure after_wait finish
    observe_attempt observe_start observe_finish is_retryable as_worker_error retry_delay wait_retry
given_up = refl

retry_handle-IsFinal_example :
    (is_retryable bad_error ≡ false)
    × IsFinal quiet (called (busy_then (some bad_error))) command bad_error given_up_end
retry_handle-IsFinal_example =
    retry_handle-IsFinal quiet (called (busy_then (some bad_error))) delays 5 command
      quiet-ContextEnds at_start given_up_end bad_error given_up

-- The writer cannot store the result.
abbrev conflict_error : GoError
conflict_error = result_error "RESULT_REPOSITORY_CONFLICT" "classification_run" (message "conflict")

abbrev conflict : InboundMessage → ℕ → Option GoError
conflict m t = some conflict_error

abbrev conflict_end : World Event
conflict_end =
    (result_dlq_handle quiet (result_retry_handle quiet (called conflict) delays) dlq_topic 5
      command at_start).1

conflict_returns :
    result_dlq_handle quiet
      (result_retry_handle quiet (called conflict) delays)
      dlq_topic
      5
      command
      at_start
    ≡ (some none, conflict_end)
unfolding result_dlq_handle result_dlq_return result_dlq_failure publish_result_letter
    after_result_publish result_retry_handle repeat repeat_from result_attempt_once
    after_result_attempt after_result_failure as_result_error build_result_dlq_message
conflict_returns = refl

result_dlq_handle-ResultSettled_example : ResultSettled dlq_topic command conflict_end.trace
result_dlq_handle-ResultSettled_example =
    result_dlq_handle-ResultSettled quiet conflict delays dlq_topic command 5 at_start conflict_end
      conflict_returns

wrap_worker_error-IsWrapped_example : IsWrapped network (wrap_worker_error classify network)
wrap_worker_error-IsWrapped_example = wrap_worker_error-IsWrapped classify network

-- An epoch at a time, with a magnitude and an error of 1.
abbrev epoch_at : ℕ → LightCurveEpoch
epoch_at time = record {
  observation_time = time;
  magnitude = 0x3f800000;
  magnitude_error = 0x3f800000;
}

-- The times 2, 1 and 3.
abbrev light_curve : LightCurveRevision
light_curve = record {
  object_id = codes "ZTF18";
  revision = pos 4;
  eligible_epoch_count = 3;
  quality_policy_version = none;
  epochs =
      epoch_at 0x4000000000000000 ∷ epoch_at 0x3ff0000000000000 ∷ epoch_at 0x4008000000000000 ∷ [];
}

abbrev prepared_light_curve : LightCurveRevision
prepared_light_curve = record light_curve {
  epochs =
      epoch_at 0x3ff0000000000000 ∷ epoch_at 0x4000000000000000 ∷ epoch_at 0x4008000000000000 ∷ [];
}

light_curve_is_prepared : prepare_light_curve_revision light_curve 3 ≡ ok prepared_light_curve
unfolding prepare_light_curve_revision check_epochs check_epoch sort_epochs insert_epoch
    has_duplicate
light_curve_is_prepared = refl

prepare_light_curve_revision-IsPrepared_example : IsPrepared light_curve 3 prepared_light_curve
prepare_light_curve_revision-IsPrepared_example =
    prepare_light_curve_revision-IsPrepared light_curve 3 prepared_light_curve
      light_curve_is_prepared

-- No earlier run is found.
abbrev first_time : Ports
first_time = record {
  before = none;
  resolve = λ version. ok (record { model_bundle_version = version });
  after_resolve = none;
  find = λ q. err (sentinel compatible_coarse_not_found);
  after_find = none;
}

abbrev bootstrap : CoarseModeSelection
bootstrap = record {
  mode = compute_bootstrap;
  model_bundle = record { model_bundle_version = codes "bundle-1" };
  reused_coarse = none;
}

bootstrap_selected : select first_time (codes "ZTF18") (pos 4) 40 (codes "bundle-1") ≡ ok bootstrap
unfolding select select_found validate_model_bundle_metadata
bootstrap_selected = rw (is-sentinel compatible_coarse_not_found)

select-IsSelection_example :
    IsSelection first_time (codes "ZTF18") (pos 4) 40 (codes "bundle-1") bootstrap
select-IsSelection_example =
    select-IsSelection first_time (codes "ZTF18") (pos 4) 40 (codes "bundle-1") bootstrap
      bootstrap_selected
