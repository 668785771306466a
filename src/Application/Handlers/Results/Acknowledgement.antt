-- ===== src/Application/Handlers/Results/Acknowledgement.antt =====
-- internal/application/classification_result_retry_handler.go and classification_result_dlq_handler.go:
-- what a nil means, and what an error means, when the DLQ handler wraps the retry handler.
use variable_star_classifica.Prelude.{
  ℕ, ◌+◌, ◌≡◌, sym, subst, refl, Bool, true, false, List, ◌∷◌, Option, none, some, Text, ℤ,
}
use variable_star_classifica.Prelude.Effects.{World, ◌>>=◌}
use variable_star_classifica.Prelude.Loops.{Iteration, stop, repeat, repeat_sound}
use variable_star_classifica.Errors.{
  GoError, MessageError, as_result_error, is, context_canceled, Result, ok, err,
}
use variable_star_classifica.Application.Messaging.{OutboundMessage, InboundMessage}
use variable_star_classifica.Application.DeadLetters.{build_result_dlq_message}
use variable_star_classifica.Application.DeadLetters.Recovery.{
  recover, build_result_dlq_message-recover,
}
use variable_star_classifica.Application.Handlers.{
  Event, handled, published, Environment, called, unless_over,
}
use variable_star_classifica.Application.Handlers.Results.{
  after_result_wait, wait_or_return, unless_context_over, after_result_failure,
  after_result_attempt, result_attempt_once, result_retry_handle, after_result_publish,
  publish_result_letter, result_dlq_failure, result_dlq_return, result_dlq_handle,
}

-- The last event: the writer stored the result, or a dead letter from which it can be recovered was
-- published.
pub data ResultSettled (topic : Text) (m : InboundMessage) : List Event → Type 0 where
  by_writer : {past : List Event} → ResultSettled topic m (handled m none ∷ past)
  by_result_letter :
      {past : List Event} {letter : OutboundMessage}
      → letter.topic ≡ topic
      → recover 6 letter ≡ some m
      → ResultSettled topic m (published letter none ∷ past)

module _ (env : Environment) (writer : InboundMessage → ℕ → Option GoError) (delays : List ℤ)
    (topic : Text) (m : InboundMessage) where
  IfNil : Option (Option GoError) × World Event → Type 0
  IfNil (some none, x) = ResultSettled topic m x.trace
  IfNil _ = Unit

  IfStop : Iteration ℕ (Option GoError) × World Event → Type 0
  IfStop (stop none, x) = ResultSettled topic m x.trace
  IfStop _ = Unit

  wait-IfStop :
      (n : ℕ) (woken : Option GoError) (w : World Event)
      → IfStop (after_result_wait env (called writer) delays m n woken w)
  unfolding after_result_wait IfStop
  wait-IfStop n none w = tt
  wait-IfStop n (some over) w = tt

  return-IfStop :
      (n : ℕ) (e : GoError) (b : Bool) (w : World Event)
      → IfStop (wait_or_return env (called writer) delays m n e b w)
  unfolding wait_or_return IfStop
  return-IfStop n e true w = tt
  return-IfStop n e false w = wait-IfStop n _ _

  context-IfStop :
      (n : ℕ) (e : GoError) (over : Option GoError) (w : World Event)
      → IfStop (unless_context_over env (called writer) delays m n e over w)
  unfolding unless_context_over IfStop
  context-IfStop n e (some over) w = tt
  context-IfStop n e none w = return-IfStop n e (is context_canceled e) w

  failure-IfStop :
      (n : ℕ) (e : GoError) (found : Option MessageError) (w : World Event)
      → IfStop (after_result_failure env (called writer) delays m n e found w)
  unfolding after_result_failure IfStop
  failure-IfStop n e (some found) w = tt
  failure-IfStop n e none w = context-IfStop n e _ _

  attempt-IfStop :
      (n : ℕ) (result : Option GoError) (w : World Event) (past : List Event)
      → w.trace ≡ handled m result ∷ past
      → IfStop (after_result_attempt env (called writer) delays m n result w)
  unfolding after_result_attempt IfStop
  attempt-IfStop n none w past e = subst (ResultSettled topic m) (sym e) by_writer
  attempt-IfStop n (some f) w past e = failure-IfStop n f (as_result_error f) w

  once-IfStop :
      (n : ℕ) (w : World Event) → IfStop (result_attempt_once env (called writer) delays m n w)
  unfolding result_attempt_once
  once-IfStop n w = attempt-IfStop n (writer m w.tick) (called writer m w).1 w.trace refl

  stop-IfStop :
      (r : Iteration ℕ (Option GoError) × World Event) {x : World Event}
      → r ≡ (stop none, x)
      → IfStop r
      → ResultSettled topic m x.trace
  unfolding IfStop
  stop-IfStop r e h = subst IfStop e h

  retry-IfNil :
      (over : Option GoError) (fuel : ℕ) (w x : World Event)
      → unless_over over (repeat (result_attempt_once env (called writer) delays m) fuel 1) w
        ≡ (some none, x)
      → ResultSettled topic m x.trace
  retry-IfNil (some c) fuel w x h = absurd (cc h)
  retry-IfNil none fuel w x h =
      let (k, n, v, _, _, f) =
        repeat_sound (result_attempt_once env (called writer) delays m) fuel 1 w x none h in
      stop-IfStop _ f (once-IfStop n v)

  nil-IfNil :
      (r : Option (Option GoError) × World Event)
      → ((x : World Event) → r ≡ (some none, x) → ResultSettled topic m x.trace)
      → IfNil r
  unfolding IfNil
  nil-IfNil (none, x) h = tt
  nil-IfNil (some none, x) h = h x refl
  nil-IfNil (some (some e), x) h = tt

  returned : Option GoError × World Event → Option (Option GoError) × World Event
  returned (r, w) = (some r, w)

  publish-IfNil :
      (letter : OutboundMessage) (failed : Option GoError) (w : World Event) (past : List Event)
      → w.trace ≡ published letter failed ∷ past
      → letter.topic ≡ topic
      → recover 6 letter ≡ some m
      → IfNil (returned (after_result_publish failed w))
  unfolding after_result_publish IfNil returned
  publish-IfNil letter none w past e to back =
      subst (ResultSettled topic m) (sym e) (by_result_letter to back)
  publish-IfNil letter (some f) w past e to back = tt

  letter-IfNil :
      (built : Result OutboundMessage) (e : MessageError) (w : World Event)
      → build_result_dlq_message topic m e ≡ built
      → IfNil (returned (publish_result_letter env built w))
  unfolding publish_result_letter IfNil returned
  letter-IfNil (err f) e w h = tt
  letter-IfNil (ok letter) e w h =
      let (to, back) = build_result_dlq_message-recover topic m e letter h in
      publish-IfNil letter (env.publish letter w.tick) _ w.trace refl to back

  dlq-IfNil :
      (e : GoError) (found : Option MessageError) (w : World Event)
      → IfNil (returned (result_dlq_failure env topic m e found w))
  unfolding result_dlq_failure IfNil returned
  dlq-IfNil e none w = tt
  dlq-IfNil e (some found) w = letter-IfNil _ found w refl

  dlq_return-IfNil :
      (r : Option (Option GoError)) (w : World Event)
      → IfNil (r, w)
      → IfNil (result_dlq_return env topic m r w)
  unfolding result_dlq_return IfNil returned
  dlq_return-IfNil none w h = tt
  dlq_return-IfNil (some none) w h = h
  dlq_return-IfNil (some (some e)) w h = dlq-IfNil e (as_result_error e) w

  dlq_from-IfNil :
      (over : Option GoError) (fuel : ℕ) (w : World Event)
      → IfNil (
          unless_over over
            (result_retry_handle env (called writer) delays fuel m
              >>= result_dlq_return env topic m)
            w)
  unfolding IfNil result_retry_handle
  dlq_from-IfNil (some e) fuel w = tt
  dlq_from-IfNil none fuel w =
      let v = record w { tick = w.tick + 1 } in
      dlq_return-IfNil _ _ (nil-IfNil _ (retry-IfNil (env.context_error w.tick) fuel v))

  -- The result DLQ handler around the result retry handler returns nil only when the writer has just stored the
  -- result, or the broker has just taken a dead letter from which it can be recovered.
  pub result_dlq_handle-ResultSettled :
      (fuel : ℕ) (w x : World Event)
      → result_dlq_handle env (result_retry_handle env (called writer) delays) topic fuel m w
        ≡ (some none, x)
      → ResultSettled topic m x.trace
  unfolding result_dlq_handle IfNil
  result_dlq_handle-ResultSettled fuel w x h =
      subst IfNil h
        (dlq_from-IfNil (env.context_error w.tick) fuel (record w { tick = w.tick + 1 }))
