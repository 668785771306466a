-- ===== src/Application/Handlers/Commands.antt =====
-- internal/application/classification_command_retry_handler.go,
-- classification_command_dlq_handler.go and classification_command_handler.go.
pub mod Retry
pub mod Attempts
pub mod Acknowledgement
use variable_star_classifica.Prelude.{
  ℕ, zero, suc, ◌+◌, ◌-◌, ◌≡◌, Bool, true, false, not, ◌&&◌, List, Option, none, some, Text,
  if◌then◌else◌, ltb, ℤ,
}
use variable_star_classifica.Prelude.Effects.{World, Effect, pure, ask, call, emit, ◌>>=◌, ◌>>◌}
use variable_star_classifica.Prelude.Loops.{Iteration, again, stop, repeat}
use variable_star_classifica.Errors.{
  ErrorClass, retryable, retry_wait, build_command_dlq, publish_command_dlq, GoError, WorkerError,
  as_worker_error, Result, ok, err,
}
use variable_star_classifica.Application.Messaging.{OutboundMessage, InboundMessage}
use variable_star_classifica.Application.WorkerErrors.{wrap_worker_error}
use variable_star_classifica.Application.DeadLetters.{build_command_dlq_message, is_permanent}
use variable_star_classifica.Application.Handlers.{
  Event, handled, published, retry_started, retry_attempted, retry_finished, dlq_published,
  Environment, Handler, LoopHandler, unless_over, retry_delay, wait_retry,
}

-- !errors.As(err, &workerError) || workerError.Class != RETRYABLE, the other way round.
abbrev worker_is_retryable : Option WorkerError → Bool
worker_is_retryable none = false
worker_is_retryable (some w) = elim w.class [ retryable ↦ true | _ ↦ false ]

unfoldable pub is_retryable : GoError → Bool
is_retryable e = worker_is_retryable (as_worker_error e)

-- RetryAttempted is for the attempts after the first.
unfoldable pub observe_attempt : ℕ → Effect Event (Unit {0})
observe_attempt attempt w = if ltb 1 attempt then emit retry_attempted w else (tt, w)

-- The local variables of the loop.
pub record Attempt : Type 0 where
  pub number : ℕ
  pub retrying : Bool

unfoldable pub observe_start : Bool → Effect Event (Unit {0})
observe_start retrying w = if retrying then (tt, w) else emit retry_started w

-- The deferred call.
unfoldable pub observe_finish : Bool → Effect Event (Unit {0})
observe_finish retrying w = if retrying then emit retry_finished w else (tt, w)

module _ (env : Environment) (next : Handler) (delays : List ℤ) (m : InboundMessage) where
  -- A return from the loop, with the deferred call.
  unfoldable pub finish : Bool → Option GoError → Effect Event (Iteration Attempt (Option GoError))
  unfolding observe_finish
  finish retrying result = observe_finish retrying >> pure (stop result)

  unfoldable pub after_wait :
      Attempt → Option GoError → Effect Event (Iteration Attempt (Option GoError))
  unfolding finish
  after_wait a (some over) = finish true (some (wrap_worker_error retry_wait over))
  after_wait a none = pure (again (record { number = a.number + 1; retrying = true }))

  -- The retry of a failed attempt, or the return.
  unfoldable pub after_failure :
      Attempt → GoError → Bool → Effect Event (Iteration Attempt (Option GoError))
  unfolding finish observe_start after_wait
  after_failure a e false = finish a.retrying (some e)
  after_failure a e true = do
    observe_start a.retrying
    woken ← wait_retry env (retry_delay delays (a.number - 1))
    after_wait a woken

  unfoldable pub after_attempt :
      Attempt → Option GoError → Effect Event (Iteration Attempt (Option GoError))
  unfolding finish after_failure
  after_attempt a none = finish a.retrying none
  after_attempt a (some e) = after_failure a e (is_retryable e)

  -- The body of the loop.
  unfoldable pub attempt_once : Attempt → Effect Event (Iteration Attempt (Option GoError))
  unfolding observe_attempt after_attempt
  attempt_once a = do observe_attempt a.number; result ← next m; after_attempt a result

abbrev pub first_attempt : Attempt
first_attempt = record { number = 1; retrying = false }

-- ClassificationCommandRetryHandler.Handle
unfoldable pub retry_handle : Environment → Handler → List ℤ → LoopHandler
unfolding attempt_once
retry_handle env next delays fuel m = do
  over ← ask env.context_error
  unless_over over (repeat (attempt_once env next delays m) fuel first_attempt)

unfoldable pub after_publish : Option GoError → Effect Event (Option GoError)
after_publish (some e) = pure (some (wrap_worker_error publish_command_dlq e))
after_publish none = emit dlq_published >> pure none

-- The publishing of the dead letter that was built, or could not be.
unfoldable pub publish_dead_letter :
    Environment → Result OutboundMessage → Effect Event (Option GoError)
unfolding after_publish
publish_dead_letter env (err e) = pure (some (wrap_worker_error build_command_dlq e))
publish_dead_letter env (ok letter) = call (env.publish letter) (published letter) >>= after_publish

unfoldable pub dlq_class :
    Environment
    → Text
    → InboundMessage
    → GoError
    → WorkerError
    → Bool
    → Effect Event (Option GoError)
unfolding publish_dead_letter
dlq_class env topic m e w false = pure (some e)
dlq_class env topic m e w true = publish_dead_letter env (build_command_dlq_message topic m w)

unfoldable pub dlq_failure :
    Environment
    → Text
    → InboundMessage
    → GoError
    → Option WorkerError
    → Effect Event (Option GoError)
unfolding dlq_class
dlq_failure env topic m e none = pure (some e)
dlq_failure env topic m e (some w) = dlq_class env topic m e w (is_permanent w.class)

unfoldable pub dlq_result :
    Environment → Text → InboundMessage → Option GoError → Effect Event (Option GoError)
unfolding dlq_failure
dlq_result env topic m none = pure none
dlq_result env topic m (some e) = dlq_failure env topic m e (as_worker_error e)

unfoldable pub dlq_return :
    Environment
    → Text
    → InboundMessage
    → Option (Option GoError)
    → Effect Event (Option (Option GoError))
unfolding dlq_result
dlq_return env topic m none = pure none
dlq_return env topic m (some result) = dlq_result env topic m result >>= λ out. pure (some out)

-- ClassificationCommandDLQHandler.Handle around a handler that loops.
unfoldable pub dlq_handle : Environment → LoopHandler → Text → LoopHandler
unfolding dlq_return
dlq_handle env next topic fuel m = do
  over ← ask env.context_error
  unless_over over (next fuel m >>= dlq_return env topic m)

-- NewClassificationCommandHandler: dead letters around retries around the worker.
unfoldable pub command_handle : Environment → Handler → List ℤ → Text → LoopHandler
command_handle env worker delays topic = dlq_handle env (retry_handle env worker delays) topic
