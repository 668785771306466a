-- ===== src/Application/Handlers/Commands/Acknowledgement.antt =====
-- internal/application/classification_command_handler.go: what a nil from the whole chain means, on
-- which the consumer commits the command's offset.
use variable_star_classifica.Prelude.{
  ℕ, ◌+◌, ◌≡◌, sym, subst, refl, Bool, true, false, List, ◌∷◌, Option, none, some, Text, ℤ,
}
use variable_star_classifica.Prelude.Effects.{World, ◌>>=◌}
use variable_star_classifica.Prelude.Loops.{Iteration, stop, repeat, repeat_sound}
use variable_star_classifica.Errors.{GoError, WorkerError, as_worker_error, Result, ok, err}
use variable_star_classifica.Application.Messaging.{OutboundMessage, InboundMessage}
use variable_star_classifica.Application.DeadLetters.{build_command_dlq_message, is_permanent}
use variable_star_classifica.Application.DeadLetters.Recovery.{
  recover, build_command_dlq_message-recover,
}
use variable_star_classifica.Application.Handlers.{
  Event, handled, published, retry_finished, dlq_published, Environment, called, unless_over,
}
use variable_star_classifica.Application.Handlers.Commands.{
  Attempt, first_attempt, is_retryable, observe_attempt, observe_finish, finish, after_wait,
  after_failure, after_attempt, attempt_once, retry_handle, after_publish, publish_dead_letter,
  dlq_class, dlq_failure, dlq_result, dlq_return, dlq_handle, command_handle,
}

-- The last events: the worker handled the message, perhaps after retries, or a dead letter from which
-- the message can be recovered was published.
pub data Settled (topic : Text) (m : InboundMessage) : List Event → Type 0 where
  by_worker : {past : List Event} → Settled topic m (handled m none ∷ past)
  by_retry : {past : List Event} → Settled topic m (retry_finished ∷ handled m none ∷ past)
  by_dead_letter :
      {past : List Event} {letter : OutboundMessage}
      → letter.topic ≡ topic
      → recover 6 letter ≡ some m
      → Settled topic m (dlq_published ∷ published letter none ∷ past)

module _ (env : Environment) (worker : InboundMessage → ℕ → Option GoError) (delays : List ℤ)
    (topic : Text) (m : InboundMessage) where
  SettledIfNil : Option (Option GoError) × World Event → Type 0
  SettledIfNil (some none, x) = Settled topic m x.trace
  SettledIfNil _ = Unit

  SettledIfStop : Iteration Attempt (Option GoError) × World Event → Type 0
  SettledIfStop (stop none, x) = Settled topic m x.trace
  SettledIfStop _ = Unit

  after_wait-Settled :
      (a : Attempt) (woken : Option GoError) (w : World Event)
      → SettledIfStop (after_wait env (called worker) delays m a woken w)
  unfolding after_wait SettledIfStop finish observe_finish
  after_wait-Settled a none w = tt
  after_wait-Settled a (some over) w = tt

  after_failure-Settled :
      (a : Attempt) (e : GoError) (b : Bool) (w : World Event)
      → SettledIfStop (after_failure env (called worker) delays m a e b w)
  unfolding after_failure SettledIfStop finish observe_finish
  after_failure-Settled a e false w = tt
  after_failure-Settled a e true w = after_wait-Settled a _ _

  finish-Settled :
      (retrying : Bool) (w : World Event) (past : List Event)
      → w.trace ≡ handled m none ∷ past
      → SettledIfStop (finish env (called worker) delays m retrying none w)
  unfolding SettledIfStop finish observe_finish
  finish-Settled true w past e = subst (λ t. Settled topic m (retry_finished ∷ t)) (sym e) by_retry
  finish-Settled false w past e = subst (Settled topic m) (sym e) by_worker

  after_attempt-Settled :
      (a : Attempt) (result : Option GoError) (w : World Event) (past : List Event)
      → w.trace ≡ handled m result ∷ past
      → SettledIfStop (after_attempt env (called worker) delays m a result w)
  unfolding after_attempt
  after_attempt-Settled a none w past e = finish-Settled a.retrying w past e
  after_attempt-Settled a (some f) w past e = after_failure-Settled a f (is_retryable f) w

  attempt_once-Settled :
      (a : Attempt) (w : World Event)
      → SettledIfStop (attempt_once env (called worker) delays m a w)
  unfolding attempt_once
  attempt_once-Settled a w =
      let v = (observe_attempt a.number w).1 in
      after_attempt-Settled a (worker m v.tick) (called worker m v).1 v.trace refl

  stop-Settled :
      (r : Iteration Attempt (Option GoError) × World Event) {x : World Event}
      → r ≡ (stop none, x)
      → SettledIfStop r
      → Settled topic m x.trace
  unfolding SettledIfStop
  stop-Settled r e h = subst SettledIfStop e h

  retry_from-Settled :
      (over : Option GoError) (fuel : ℕ) (w x : World Event)
      → unless_over over (repeat (attempt_once env (called worker) delays m) fuel first_attempt) w
        ≡ (some none, x)
      → Settled topic m x.trace
  retry_from-Settled (some c) fuel w x h = absurd (cc h)
  retry_from-Settled none fuel w x h =
      let (k, a, v, _, _, f) =
        repeat_sound (attempt_once env (called worker) delays m) fuel first_attempt w x none h in
      stop-Settled _ f (attempt_once-Settled a v)

  -- What dlq_return adds to the result of a handler that ends.
  returned : Option GoError × World Event → Option (Option GoError) × World Event
  returned (r, w) = (some r, w)

  after_publish-Settled :
      (letter : OutboundMessage) (failed : Option GoError) (w : World Event) (past : List Event)
      → w.trace ≡ published letter failed ∷ past
      → letter.topic ≡ topic
      → recover 6 letter ≡ some m
      → SettledIfNil (returned (after_publish failed w))
  unfolding after_publish SettledIfNil returned
  after_publish-Settled letter none w past e to back =
      subst (λ t. Settled topic m (dlq_published ∷ t)) (sym e) (by_dead_letter to back)
  after_publish-Settled letter (some f) w past e to back = tt

  publish_dead_letter-Settled :
      (built : Result OutboundMessage) (e : WorkerError) (w : World Event)
      → build_command_dlq_message topic m e ≡ built
      → SettledIfNil (returned (publish_dead_letter env built w))
  unfolding publish_dead_letter SettledIfNil returned
  publish_dead_letter-Settled (err f) e w h = tt
  publish_dead_letter-Settled (ok letter) e w h =
      let (_, to, back) = build_command_dlq_message-recover topic m e letter h in
      after_publish-Settled letter (env.publish letter w.tick) _ w.trace refl to back

  dlq_class-Settled :
      (e : GoError) (found : WorkerError) (b : Bool) (w : World Event)
      → SettledIfNil (returned (dlq_class env topic m e found b w))
  unfolding dlq_class SettledIfNil returned
  dlq_class-Settled e found false w = tt
  dlq_class-Settled e found true w = publish_dead_letter-Settled _ found w refl

  dlq_failure-Settled :
      (e : GoError) (found : Option WorkerError) (w : World Event)
      → SettledIfNil (returned (dlq_failure env topic m e found w))
  unfolding dlq_failure SettledIfNil returned
  dlq_failure-Settled e none w = tt
  dlq_failure-Settled e (some found) w = dlq_class-Settled e found (is_permanent found.class) w

  dlq_return-Settled :
      (r : Option (Option GoError)) (w : World Event)
      → SettledIfNil (r, w)
      → SettledIfNil (dlq_return env topic m r w)
  unfolding dlq_return dlq_result SettledIfNil returned
  dlq_return-Settled none w h = tt
  dlq_return-Settled (some none) w h = h
  dlq_return-Settled (some (some e)) w h = dlq_failure-Settled e (as_worker_error e) w

  nil-Settled :
      (r : Option (Option GoError) × World Event)
      → ((x : World Event) → r ≡ (some none, x) → Settled topic m x.trace)
      → SettledIfNil r
  unfolding SettledIfNil
  nil-Settled (none, x) h = tt
  nil-Settled (some none, x) h = h x refl
  nil-Settled (some (some e), x) h = tt

  retry_handle-Settled :
      (fuel : ℕ) (w : World Event) → SettledIfNil (retry_handle env (called worker) delays fuel m w)
  unfolding retry_handle
  retry_handle-Settled fuel w =
      nil-Settled _
        (retry_from-Settled (env.context_error w.tick) fuel (record w { tick = w.tick + 1 }))

  dlq_from-Settled :
      (over : Option GoError) (fuel : ℕ) (w : World Event)
      → SettledIfNil (
          unless_over over
            (retry_handle env (called worker) delays fuel m >>= dlq_return env topic m)
            w)
  unfolding SettledIfNil
  dlq_from-Settled (some e) fuel w = tt
  dlq_from-Settled none fuel w =
      let r = retry_handle env (called worker) delays fuel m w in
      dlq_return-Settled r.0 r.1 (retry_handle-Settled fuel w)

  -- The chain of dead letters, retries and worker returns nil only when the worker has just handled the
  -- message, or the broker has just taken a dead letter for it from which it can be recovered: a
  -- command whose offset is committed is never lost.
  pub command_handle-Settled :
      (fuel : ℕ) (w x : World Event)
      → command_handle env (called worker) delays topic fuel m w ≡ (some none, x)
      → Settled topic m x.trace
  unfolding command_handle dlq_handle SettledIfNil
  command_handle-Settled fuel w x h =
      subst SettledIfNil h
        (dlq_from-Settled (env.context_error w.tick) fuel (record w { tick = w.tick + 1 }))
