-- ===== src/Application/Handlers/Commands/Retry.antt =====
-- internal/application/classification_command_retry_handler.go: with what the loop ends.
use variable_star_classifica.Prelude.{
  ℕ, ◌+◌, ◌-◌, ◌≡◌, subst, refl, ◌⊎◌, inl, inr, Bool, true, false, List, Option, none, some, ℤ, pos,
  eqb_ℤ, ◌∷◌, if-holds, arith,
}
use variable_star_classifica.Prelude.Effects.{World, Effect}
use variable_star_classifica.Prelude.Loops.{Iteration, stop, repeat, repeat_sound}
use variable_star_classifica.Errors.{
  is-sentinel, as_worker_error-sentinel, GoError, sentinel, context_canceled,
  context_deadline_exceeded, retry_wait, as_worker_error,
}
use variable_star_classifica.Application.Messaging.{InboundMessage}
use variable_star_classifica.Application.WorkerErrors.{
  wrap_worker_error, wrap_worker_error-cancelled, is_context_error,
}
use variable_star_classifica.Application.Handlers.{
  Event, waited, retry_finished, unless_over, Environment, Handler, retry_delay, wait_retry,
}
use variable_star_classifica.Application.Handlers.Commands.{
  first_attempt, Attempt, is_retryable, observe_attempt, observe_start, observe_finish, finish,
  after_wait, after_failure, after_attempt, attempt_once, retry_handle,
}

-- ctx.Err() says why the context ended.
abbrev pub IsContextEnd : Option GoError → Type 0
IsContextEnd none = Unit
IsContextEnd (some e) = (e ≡ sentinel context_canceled) ⊎ (e ≡ sentinel context_deadline_exceeded)

abbrev pub ContextEnds : Environment → Type 0
ContextEnds env = (t : ℕ) → IsContextEnd (env.context_error t) × IsContextEnd (env.woken_by t)

-- The context said c, as its end.
abbrev pub EndsWith : Environment → GoError → Type 0
EndsWith env c =
    IsContextEnd (some c) × ((t : ℕ) × ((env.context_error t ≡ some c) ⊎ (env.woken_by t ≡ some c)))

abbrev SaysEnd : Environment → Option GoError → Type 0
SaysEnd env none = Unit
SaysEnd env (some c) = EndsWith env c

says-context :
    (env : Environment) (t : ℕ) (r : Option GoError)
    → ContextEnds env
    → env.context_error t ≡ r
    → SaysEnd env r
says-context env t none h e = tt
says-context env t (some c) h e = (subst IsContextEnd e (h t).0, (t, inl e))

says-woken :
    (env : Environment) (t : ℕ) (r : Option GoError)
    → ContextEnds env
    → env.woken_by t ≡ r
    → SaysEnd env r
says-woken env t none h e = tt
says-woken env t (some c) h e = (subst IsContextEnd e (h t).1, (t, inr e))

-- The last thing that happened is a call of the wrapped handler that answered e, but for the observer's
-- call at the end of the retries.
abbrev pub AnsweredLast : Handler → InboundMessage → GoError → World Event → Type 0
AnsweredLast next m e x =
    (v : World Event) × (y : World Event) × (next m v ≡ (some e, y))
    × ((x.trace ≡ y.trace) ⊎ (x.trace ≡ retry_finished ∷ y.trace))

-- Why the retry handler returns an error: the wrapped handler's last answer, which is worth no retry, or
-- the end of the context, which it returns as it is or as the end of a wait.
pub data IsFinal (env : Environment) (next : Handler) (m : InboundMessage)
    : GoError → World Event → Type 0 where
  answered :
      {e : GoError} {x : World Event}
      → is_retryable e ≡ false
      → AnsweredLast next m e x
      → IsFinal env next m e x
  ended : {c : GoError} {x : World Event} → EndsWith env c → IsFinal env next m c x
  ended_waiting :
      {c : GoError} {x : World Event}
      → EndsWith env c
      → IsFinal env next m (wrap_worker_error retry_wait c) x

fresh-end : (e : GoError) → IsContextEnd (some e) → as_worker_error e ≡ none
fresh-end e (inl h) = rw h (as_worker_error-sentinel context_canceled)
fresh-end e (inr h) = rw h (as_worker_error-sentinel context_deadline_exceeded)

over-end : (e : GoError) → IsContextEnd (some e) → is_context_error e ≡ true
over-end e (inl h) = rw h (ground (arith, is-sentinel context_canceled))
over-end e (inr h) = rw h (ground (arith, is-sentinel context_deadline_exceeded))

not_retryable-context : (e : GoError) → IsContextEnd (some e) → is_retryable e ≡ false
unfolding is_retryable
not_retryable-context e h = ground (arith, fresh-end e h)

not_retryable-wrapped :
    (e : GoError) → IsContextEnd (some e) → is_retryable (wrap_worker_error retry_wait e) ≡ false
unfolding is_retryable
not_retryable-wrapped e h =
    let (w, found, class, _) =
      wrap_worker_error-cancelled retry_wait e (fresh-end e h) (over-end e h) in
    ground (arith, found, class)

-- None of these errors is retryable.
final-not_retryable :
    (env : Environment) (next : Handler) (m : InboundMessage) (e : GoError) (x : World Event)
    → IsFinal env next m e x
    → is_retryable e ≡ false
final-not_retryable env next m e x (answered other _) = other
final-not_retryable env next m e x (ended (end, _)) = not_retryable-context e end
final-not_retryable env next m _ x (ended_waiting {c = c} (end, _)) = not_retryable-wrapped c end

module _ (env : Environment) (next : Handler) (delays : List ℤ) (m : InboundMessage) where
  wait_retry-SaysEnd :
      (delay : ℤ) (w : World Event) → ContextEnds env → SaysEnd env (wait_retry env delay w).0
  unfolding wait_retry
  wait_retry-SaysEnd delay w h =
      if-holds
        (λ (f : Effect Event (Option GoError)).
          SaysEnd env (f (record w { trace = waited delay ∷ w.trace })).0)
        (eqb_ℤ delay (pos 0)) (says-context env w.tick _ h refl) (says-woken env w.tick _ h refl)

  -- An attempt that ends the loop with an error ends it for one of the reasons.
  Final : Iteration Attempt (Option GoError) × World Event → Type 0
  Final (stop (some e), x) = IsFinal env next m e x
  Final _ = Unit

  finish-Final :
      (retrying : Bool) (e : GoError) (v y : World Event)
      → is_retryable e ≡ false
      → next m v ≡ (some e, y)
      → Final (finish env next delays m retrying (some e) y)
  unfolding finish Final observe_finish
  finish-Final true e v y r h = answered r (v, y, h, inr refl)
  finish-Final false e v y r h = answered r (v, y, h, inl refl)

  after_wait-Final :
      (a : Attempt) (woken : Option GoError) (w : World Event)
      → SaysEnd env woken
      → Final (after_wait env next delays m a woken w)
  unfolding after_wait Final finish observe_finish
  after_wait-Final a none w h = tt
  after_wait-Final a (some over) w h = ended_waiting h

  after_failure-Final :
      (a : Attempt) (e : GoError) (b : Bool) (v w : World Event)
      → ContextEnds env
      → is_retryable e ≡ b
      → next m v ≡ (some e, w)
      → Final (after_failure env next delays m a e b w)
  unfolding after_failure
  after_failure-Final a e false v w h r n = finish-Final a.retrying e v w r n
  after_failure-Final a e true v w h r n =
      let s = (observe_start a.retrying w).1 in
      let delay = retry_delay delays (a.number - 1) in
      after_wait-Final a (wait_retry env delay s).0 (wait_retry env delay s).1
        (wait_retry-SaysEnd delay s h)

  after_attempt-Final :
      (a : Attempt) (result : Option GoError) (v w : World Event)
      → ContextEnds env
      → next m v ≡ (result, w)
      → Final (after_attempt env next delays m a result w)
  unfolding after_attempt finish observe_finish Final
  after_attempt-Final a none v w h n = tt
  after_attempt-Final a (some e) v w h n = after_failure-Final a e (is_retryable e) v w h refl n

  attempt_once-Final :
      (a : Attempt) (w : World Event) → ContextEnds env → Final (attempt_once env next delays m a w)
  unfolding attempt_once
  attempt_once-Final a w h =
      let v = (observe_attempt a.number w).1 in
      after_attempt-Final a (next m v).0 v (next m v).1 h refl

  Final-stop :
      (r : Iteration Attempt (Option GoError) × World Event) {e : GoError} {x : World Event}
      → r ≡ (stop (some e), x)
      → Final r
      → IsFinal env next m e x
  unfolding Final
  Final-stop r e h = subst Final e h

module _ (env : Environment) (next : Handler) (delays : List ℤ) (fuel : ℕ) (m : InboundMessage)
    (ends : ContextEnds env) where
  retry_from-IsFinal :
      (over : Option GoError) (w x : World Event) (e : GoError)
      → SaysEnd env over
      → unless_over over (repeat (attempt_once env next delays m) fuel first_attempt) w
        ≡ (some (some e), x)
      → IsFinal env next m e x
  retry_from-IsFinal (some c) w x e end h =
      let same : c ≡ e = cc in subst (λ z. IsFinal env next m z x) same (ended end)
  retry_from-IsFinal none w x e end h =
      let (k, a, v, _, _, f) =
        repeat_sound (attempt_once env next delays m) fuel first_attempt w x (some e) h in
      Final-stop env next delays m _ f (attempt_once-Final env next delays m a v ends)

  -- If ctx.Err() is context.Canceled or context.DeadlineExceeded whenever it is not nil, then an
  -- error that the retry handler returns is not retryable, and it is what the wrapped handler
  -- answered to its last call, or the end of the context, either as it is or wrapped as the end of
  -- a wait.
  pub retry_handle-IsFinal :
      (w x : World Event) (e : GoError)
      → retry_handle env next delays fuel m w ≡ (some (some e), x)
      → (is_retryable e ≡ false) × IsFinal env next m e x
  unfolding retry_handle
  retry_handle-IsFinal w x e h =
      let final =
        retry_from-IsFinal (env.context_error w.tick) (record w { tick = w.tick + 1 }) x e
          (says-context env w.tick _ ends refl) h in
      (final-not_retryable env next m e x final, final)
