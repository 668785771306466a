-- ===== src/Application/Handlers.antt =====
-- The effects of the message handlers of internal/application: the context, the retry timers, the
-- publishers and the observer. A nil error is `none`.
pub mod Commands
pub mod Results
pub mod Candidates
pub mod Worker
pub mod Writer
use variable_star_classifica.Prelude.{
  ℕ, zero, suc, ◌+◌, ◌-◌, ◌<◌, ◌≡◌, Bool, true, false, List, [], ◌∷◌, Option, none, some, String,
  if◌then◌else◌, ltb, length, get_elem?, ℤ, pos, ltb_ℤ, eqb_ℤ,
}
use variable_star_classifica.Prelude.Effects.{World, Effect, pure, ask, call, emit, ◌>>=◌, ◌>>◌}
use variable_star_classifica.Errors.{GoError, message, Result, ok, err}
use variable_star_classifica.Application.Messaging.{OutboundMessage, InboundMessage}
use variable_star_classifica.Domain.Classification.{ClassificationRun}

-- ClassificationCommandStage
pub data Stage : Type 0 where
  decode_stage prepare_input_stage resolve_bundle_stage triton_stage : Stage
  build_run_stage build_result_stage publish_result_stage : Stage

pub data Event : Type 0 where
  handled : InboundMessage → Option GoError → Event  -- a wrapped handler returned
  waited : ℤ → Event  -- a retry delay began
  published : OutboundMessage → Option GoError → Event  -- Publish returned
  retry_started retry_attempted retry_finished dlq_published : Event  -- the observer
  command_started command_finished : Event
  stage_finished : Stage → Event
  saved : ClassificationRun → Option GoError → Event  -- SaveRunAndMaybeAdvanceCurrent returned

-- What the outside answers, at each tick.
pub record Environment : Type 0 where
  pub context_error : ℕ → Option GoError  -- ctx.Err()
  pub woken_by : ℕ → Option GoError  -- a select of the timer (`none`) and ctx.Done() (ctx.Err())
  pub publish : OutboundMessage → ℕ → Option GoError

-- MessageHandler.Handle
abbrev pub Handler : Type 0
Handler = InboundMessage → Effect Event (Option GoError)

-- The loops of the code that have no bound return `none` when the fuel ends first.
abbrev pub LoopHandler : Type 0
LoopHandler = ℕ → InboundMessage → Effect Event (Option (Option GoError))

-- classificationCommandRetryDelay and classificationResultRetryDelay
unfoldable pub retry_delay : List ℤ → ℕ → ℤ
retry_delay [] i = pos 0
retry_delay (d ∷ []) i = d
retry_delay (d ∷ (e ∷ ds)) zero = d
retry_delay (d ∷ (e ∷ ds)) (suc i) = retry_delay (e ∷ ds) i

-- waitClassificationCommandRetry and waitClassificationResultRetry: with no delay, only the context is
-- looked at.
unfoldable pub wait_retry : Environment → ℤ → Effect Event (Option GoError)
wait_retry env delay = do
  emit (waited delay)
  if eqb_ℤ delay (pos 0) then ask env.context_error else ask env.woken_by

-- NewClassificationCommandRetryHandler and NewClassificationResultRetryHandler
abbrev pub negative_delay : List ℤ → Bool
negative_delay [] = false
negative_delay (d ∷ ds) = if ltb_ℤ d (pos 0) then true else negative_delay ds

abbrev pub is_empty : List ℤ → Bool
is_empty [] = true
is_empty (d ∷ ds) = false

unfoldable pub new_retry_delays : List ℤ → Result (List ℤ)
new_retry_delays delays =
    if is_empty delays
    then err (message "retry delays must not be empty")
    else if negative_delay delays
    then err (message "retry delay must not be negative")
    else ok delays

-- if err := ctx.Err(); err != nil { return err }
abbrev pub unless_over :
    Option GoError → Effect Event (Option (Option GoError)) → Effect Event (Option (Option GoError))
unless_over (some e) rest = pure (some (some e))
unless_over none rest = rest

-- A wrapped handler whose answers are the environment's.
abbrev pub called : (InboundMessage → ℕ → Option GoError) → Handler
called answers m = call (answers m) (handled m)
