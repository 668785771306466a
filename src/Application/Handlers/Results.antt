-- ===== src/Application/Handlers/Results.antt =====
-- internal/application/classification_result_retry_handler.go and classification_result_dlq_handler.go.
pub mod Acknowledgement
use variable_star_classifica.Prelude.{
  ℕ, zero, suc, ◌+◌, ◌-◌, ◌≡◌, Bool, true, false, List, Option, none, some, Text, ℤ,
}
use variable_star_classifica.Prelude.Effects.{World, Effect, pure, ask, call, emit, ◌>>=◌, ◌>>◌}
use variable_star_classifica.Prelude.Loops.{Iteration, again, stop, repeat}
use variable_star_classifica.Errors.{
  context_canceled, GoError, wrap, is, MessageError, as_result_error, Result, ok, err,
}
use variable_star_classifica.Application.Messaging.{OutboundMessage, InboundMessage}
use variable_star_classifica.Application.DeadLetters.{build_result_dlq_message}
use variable_star_classifica.Application.Handlers.{
  Event, published, Environment, Handler, LoopHandler, unless_over, retry_delay, wait_retry,
}

module _ (env : Environment) (next : Handler) (delays : List ℤ) (m : InboundMessage) where
  unfoldable pub after_result_wait :
      ℕ → Option GoError → Effect Event (Iteration ℕ (Option GoError))
  after_result_wait attempt (some over) = pure (stop (some over))
  after_result_wait attempt none = pure (again (attempt + 1))

  -- errors.Is(err, context.Canceled) ends the loop although the context has not ended.
  unfoldable pub wait_or_return : ℕ → GoError → Bool → Effect Event (Iteration ℕ (Option GoError))
  unfolding after_result_wait
  wait_or_return attempt e true = pure (stop (some e))
  wait_or_return attempt e false =
      wait_retry env (retry_delay delays (attempt - 1)) >>= after_result_wait attempt

  unfoldable pub unless_context_over :
      ℕ → GoError → Option GoError → Effect Event (Iteration ℕ (Option GoError))
  unfolding wait_or_return
  unless_context_over attempt e (some over) = pure (stop (some over))
  unless_context_over attempt e none = wait_or_return attempt e (is context_canceled e)

  unfoldable pub after_result_failure :
      ℕ → GoError → Option MessageError → Effect Event (Iteration ℕ (Option GoError))
  unfolding unless_context_over
  after_result_failure attempt e (some permanent) = pure (stop (some e))
  after_result_failure attempt e none = ask env.context_error >>= unless_context_over attempt e

  unfoldable pub after_result_attempt :
      ℕ → Option GoError → Effect Event (Iteration ℕ (Option GoError))
  unfolding after_result_failure
  after_result_attempt attempt none = pure (stop none)
  after_result_attempt attempt (some e) = after_result_failure attempt e (as_result_error e)

  -- The body of the loop.
  unfoldable pub result_attempt_once : ℕ → Effect Event (Iteration ℕ (Option GoError))
  unfolding after_result_attempt
  result_attempt_once attempt = next m >>= after_result_attempt attempt

-- ClassificationResultRetryHandler.Handle
unfoldable pub result_retry_handle : Environment → Handler → List ℤ → LoopHandler
unfolding result_attempt_once
result_retry_handle env next delays fuel m = do
  over ← ask env.context_error
  unless_over over (repeat (result_attempt_once env next delays m) fuel 1)

unfoldable pub after_result_publish : Option GoError → Effect Event (Option GoError)
after_result_publish (some e) = pure (some (wrap "publish classification result DLQ" e))
after_result_publish none = pure none

unfoldable pub publish_result_letter :
    Environment → Result OutboundMessage → Effect Event (Option GoError)
unfolding after_result_publish
publish_result_letter env (err e) = pure (some (wrap "build classification result DLQ" e))
publish_result_letter env (ok letter) =
    call (env.publish letter) (published letter) >>= after_result_publish

unfoldable pub result_dlq_failure :
    Environment
    → Text
    → InboundMessage
    → GoError
    → Option MessageError
    → Effect Event (Option GoError)
unfolding publish_result_letter
result_dlq_failure env topic m e none = pure (some e)
result_dlq_failure env topic m e (some found) =
    publish_result_letter env (build_result_dlq_message topic m found)

unfoldable pub result_dlq_return :
    Environment
    → Text
    → InboundMessage
    → Option (Option GoError)
    → Effect Event (Option (Option GoError))
unfolding result_dlq_failure
result_dlq_return env topic m none = pure none
result_dlq_return env topic m (some none) = pure (some none)
result_dlq_return env topic m (some (some e)) =
    result_dlq_failure env topic m e (as_result_error e) >>= λ out. pure (some out)

-- ClassificationResultDLQHandler.Handle
unfoldable pub result_dlq_handle : Environment → LoopHandler → Text → LoopHandler
unfolding result_dlq_return
result_dlq_handle env next topic fuel m = do
  over ← ask env.context_error
  unless_over over (next fuel m >>= result_dlq_return env topic m)
