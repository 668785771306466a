-- ===== src/Application/Handlers/Commands/Attempts.antt =====
-- internal/application/classification_command_retry_handler.go: a worker that fails some times and then
-- settles is called until it settles.
use variable_star_classifica.Prelude.{
  ℕ, zero, suc, ◌+◌, ◌-◌, ◌<◌, ◌≡◌, ◌∙◌, sym, ap, subst, refl, true, false, List, [], ◌∷◌, Option,
  none, some, ltb, ℤ, pos, eqb_ℤ, arith, if◌then◌else◌,
}
use variable_star_classifica.Prelude.Effects.{World, Effect}
use variable_star_classifica.Prelude.Loops.{
  Iteration, again, stop, repeat, repeat_complete, Reaches, here, there,
}
use variable_star_classifica.Errors.{GoError}
use variable_star_classifica.Application.Messaging.{InboundMessage}
use variable_star_classifica.Application.Handlers.{
  Event, handled, waited, retry_started, retry_attempted, retry_finished, Environment, called,
  retry_delay, wait_retry, unless_over,
}
use variable_star_classifica.Application.Handlers.Commands.{
  Attempt, first_attempt, is_retryable, observe_attempt, observe_start, observe_finish, finish,
  after_wait, after_failure, after_attempt, attempt_once, retry_handle,
}

-- How many events of a kind a trace has.
abbrev pub count : (Event → ℕ) → List Event → ℕ
count weight [] = 0
count weight (e ∷ es) = weight e + count weight es

abbrev pub one_handled : Event → ℕ
one_handled (handled m r) = 1
one_handled _ = 0

abbrev pub one_attempted : Event → ℕ
one_attempted retry_attempted = 1
one_attempted _ = 0

abbrev pub one_started : Event → ℕ
one_started retry_started = 1
one_started _ = 0

abbrev pub one_finished : Event → ℕ
one_finished retry_finished = 1
one_finished _ = 0

module _ (env : Environment) (worker : InboundMessage → ℕ → Option GoError) (delays : List ℤ)
    (m : InboundMessage) where
  -- What ends the wait before a retry.
  abbrev wait_answer : ℤ → ℕ → Option GoError
  wait_answer delay t = if eqb_ℤ delay (pos 0) then env.context_error t else env.woken_by t

  abbrev IsSettled : Option GoError → Type 0
  IsSettled none = Unit
  IsSettled (some e) = is_retryable e ≡ false

  -- From attempt `number` on, asked at tick t, the worker gives n retryable errors, after each of which
  -- the delay passes, and then the answer r.
  abbrev pub FailsThen : ℕ → ℕ → ℕ → Option GoError → Type 0
  FailsThen zero number t r = (worker m t ≡ r) × IsSettled r
  FailsThen (suc n) number t r =
      (e : GoError) × (worker m t ≡ some e)
      × (is_retryable e ≡ true)
      × (wait_answer (retry_delay delays (number - 1)) (t + 1) ≡ none)
      × FailsThen n (number + 1) (t + 2) r

  abbrev attempt_called : Attempt → Effect Event (Iteration Attempt (Option GoError))
  attempt_called = attempt_once env (called worker) delays m

  wait_retry-answer :
      (delay : ℤ) (w : World Event)
      → wait_retry env delay w
        ≡ (wait_answer delay w.tick, record { tick = w.tick + 1; trace = waited delay ∷ w.trace })
  unfolding wait_retry
  wait_retry-answer delay w = ground arith

  -- The observer's counts, and the worker's calls, between two worlds.
  pub record Counts (w x : World Event) (calls retries starts finishes : ℕ) : Type 0 where
    pub handled_more : count one_handled x.trace ≡ calls + count one_handled w.trace
    pub attempted_more : count one_attempted x.trace ≡ retries + count one_attempted w.trace
    pub started_more : count one_started x.trace ≡ starts + count one_started w.trace
    pub finished_more : count one_finished x.trace ≡ finishes + count one_finished w.trace

  attempt_once-settled :
      (a : Attempt) (w : World Event) (r : Option GoError)
      → worker m w.tick ≡ r
      → IsSettled r
      → ((attempt_called a w).0 ≡ stop r)
        × Counts w
            (attempt_called a w).1
            1
            (if ltb 1 a.number then 1 else 0)
            0
            (if a.retrying then 1 else 0)
  unfolding attempt_once observe_attempt after_attempt finish observe_finish after_failure
  attempt_once-settled a w none e s = (
    ground arith,
    record {
      handled_more = ground arith;
      attempted_more = ground arith;
      started_more = ground arith;
      finished_more = ground arith;
    },
  )
  attempt_once-settled a w (some f) e s = (
    ground arith,
    record {
      handled_more = ground arith;
      attempted_more = ground arith;
      started_more = ground arith;
      finished_more = ground arith;
    },
  )

  attempt_once-retried :
      (a : Attempt) (w : World Event) (e : GoError)
      → worker m w.tick ≡ some e
      → is_retryable e ≡ true
      → wait_answer (retry_delay delays (a.number - 1)) (w.tick + 1) ≡ none
      → ((attempt_called a w).0 ≡ again (record { number = a.number + 1; retrying = true }))
        × ((attempt_called a w).1.tick ≡ w.tick + 2)
        × Counts w
            (attempt_called a w).1
            1
            (if ltb 1 a.number then 1 else 0)
            (if a.retrying then 0 else 1)
            0
  unfolding attempt_once observe_attempt after_attempt finish observe_finish after_failure
      observe_start after_wait wait_retry
  attempt_once-retried a w e f r t = (
    ground arith,
    ground arith,
    record {
      handled_more = ground arith;
      attempted_more = ground arith;
      started_more = ground arith;
      finished_more = ground arith;
    },
  )

  -- The loop goes on for n attempts and stops at the next one.
  Reaches-settled :
      (n : ℕ) (a : Attempt) (w : World Event) (r : Option GoError)
      → a.retrying ≡ ltb 1 a.number
      → 0 < a.number
      → FailsThen n a.number w.tick r
      → (b : Attempt) × (v : World Event) × (x : World Event) × Reaches attempt_called n a w b v
        × (attempt_called b v ≡ (stop r, x))
        × Counts w x
            (n + 1)
            (n + (if a.retrying then 1 else 0))
            (if a.retrying then 0 else if ltb 0 n then 1 else 0)
            (if a.retrying then 1 else if ltb 0 n then 1 else 0)
  Reaches-settled zero a w r same first (e, s) =
      let (stops, counts) = attempt_once-settled a w r e s in
      (
        a,
        w,
        (attempt_called a w).1,
        here,
        ap (λ i. (i, (attempt_called a w).1)) stops,
        record {
          handled_more = counts.handled_more;
          attempted_more = ground (arith, counts.attempted_more);
          started_more = ground (arith, counts.started_more);
          finished_more = ground (arith, counts.finished_more);
        },
      )
  Reaches-settled (suc n) a w r same first (e, f, worth, passed, later) =
      let (goes, tick, counts) = attempt_once-retried a w e f worth passed in
      let (b, v, x, reach, stops, more) =
        Reaches-settled n (record { number = a.number + 1; retrying = true }) (attempt_called a w).1
          r (ground arith) (omega arith)
          (subst (λ t. FailsThen n (a.number + 1) t r) (sym tick) later) in
      (
        b,
        v,
        x,
        there (ap (λ i. (i, (attempt_called a w).1)) goes) reach,
        stops,
        record {
          handled_more = ground (arith, counts.handled_more, more.handled_more);
          attempted_more = ground (arith, counts.attempted_more, more.attempted_more);
          started_more = ground (arith, counts.started_more, more.started_more);
          finished_more = ground (arith, counts.finished_more, more.finished_more);
        },
      )

  -- A worker that fails with n retryable errors and then settles is called n + 1 times, and with fuel
  -- for that the retry handler returns what it settled with; n retries are observed, and one start and
  -- one end of retrying if n is not 0.
  pub retry_handle-settles :
      (n fuel : ℕ) (w : World Event) (r : Option GoError)
      → env.context_error w.tick ≡ none
      → FailsThen n 1 (w.tick + 1) r
      → n < fuel
      → (x : World Event) × (retry_handle env (called worker) delays fuel m w ≡ (some r, x))
        × Counts w x (n + 1) n (if ltb 0 n then 1 else 0) (if ltb 0 n then 1 else 0)
  unfolding retry_handle
  retry_handle-settles n fuel w r live fails enough =
      let v = record w { tick = w.tick + 1 } in
      let (b, u, x, reach, stops, counts) =
        Reaches-settled n first_attempt v r refl (omega arith) fails in
      (
        x,
        ap (λ c. unless_over c (repeat attempt_called fuel first_attempt) v) live
            ∙ repeat_complete attempt_called fuel reach stops enough,
        record {
          handled_more = counts.handled_more;
          attempted_more = ground (arith, counts.attempted_more);
          started_more = counts.started_more;
          finished_more = counts.finished_more;
        },
      )
