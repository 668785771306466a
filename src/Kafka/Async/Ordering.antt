-- ===== src/Kafka/Async/Ordering.antt =====
-- internal/adapter/kafka/async_consumer.go: each goroutine handles its group in poll order.
use variable_star_classifica.Prelude.{
  if-elim, not, ◌||◌, ℕ, zero, suc, ◌≡◌, ◌∙◌, sym, ap, refl, ◌⊎◌, inl, inr, Bool, true, false, List,
  [], ◌∷◌, ◌++◌, map, Option, none, some, append_assoc, get_elem?, set, arith, subst,
}
use variable_star_classifica.Errors.{GoError}
use variable_star_classifica.Kafka.Records.{KafkaRecord}
use variable_star_classifica.Kafka.Tracker.{Tracker, is_some}
use variable_star_classifica.Kafka.Groups.{group_records_for_processing, ProcessingKey}
use variable_star_classifica.Kafka.Groups.Order.{with_key, group_records-with_key}
use variable_star_classifica.Kafka.Async.{RecordIndex, Completion, Worker, new_worker, Batch}
use variable_star_classifica.Kafka.Async.Schedule.{
  Choice, resume, handler_returned, receive, interrupt, resume_worker, next_record, resume_at,
  return_record, return_at, receive_from, step, run, start,
}

abbrev in_progress : Option KafkaRecord → List KafkaRecord → List KafkaRecord
in_progress none rest = rest
in_progress (some r) rest = r ∷ rest

-- A running goroutine still has the rest of its group before it; one that has returned handled a
-- prefix of its group.
abbrev pub Follows : List KafkaRecord → Worker → Type 0
Follows group w =
    ((w.running ≡ true) × (group ≡ w.handled ++ in_progress w.current w.rest))
    ⊎ ((w.running ≡ false)
        × (w.current ≡ none)
        × ((tail : List KafkaRecord) × (group ≡ w.handled ++ tail)))

next_record-Follows :
    (group : List KafkaRecord) (w : Worker) (rest : List KafkaRecord)
    → w.running ≡ true
    → w.current ≡ none
    → group ≡ w.handled ++ rest
    → Follows group (next_record w rest)
next_record-Follows group w [] live idle e = inr (refl, idle, ([], e))
next_record-Follows group w (r ∷ rest) live idle e = inl (live, e)

idle_running :
    (w : Worker)
    → (is_some w.current || not w.running) ≡ false
    → (w.running ≡ true) × (w.current ≡ none)
idle_running w h = ground arith

Follows-idle :
    (group : List KafkaRecord) (w : Worker)
    → w.running ≡ true
    → w.current ≡ none
    → Follows group w
    → group ≡ w.handled ++ w.rest
Follows-idle group w live idle (inl (_, e)) = e ∙ ap (λ c. w.handled ++ in_progress c w.rest) idle
Follows-idle group w live idle (inr (stopped, _, _)) = cc

resume_worker-Follows :
    (group : List KafkaRecord) (cancelled : Bool) (w : Worker)
    → Follows group w
    → Follows group (resume_worker cancelled w)
resume_worker-Follows group cancelled w f =
    if-elim (Follows group) (is_some w.current || not w.running) (λ _. f)
      λ free.
        let (live, idle) = idle_running w free in
        let e = Follows-idle group w live idle f in
        if-elim (Follows group) cancelled (λ _. inr (refl, idle, (w.rest, e)))
          (λ _. next_record-Follows group w w.rest live idle e)

Follows-prefix :
    (group : List KafkaRecord) (w : Worker)
    → Follows group w
    → (tail : List KafkaRecord) × (group ≡ w.handled ++ tail)
Follows-prefix group w (inl (_, e)) = (in_progress w.current w.rest, e)
Follows-prefix group w (inr (_, _, t)) = t

-- The i-th goroutine follows the i-th group.
abbrev pub AllFollow : List (List KafkaRecord) → List Worker → Type 0
AllFollow [] [] = Unit
AllFollow [] (w ∷ ws) = ⊥
AllFollow (g ∷ gs) [] = ⊥
AllFollow (g ∷ gs) (w ∷ ws) = Follows g w × AllFollow gs ws

AllFollow-set :
    (gs : List (List KafkaRecord)) (ws : List Worker) (i : ℕ) (w w' : Worker)
    → AllFollow gs ws
    → get_elem? ws i ≡ some w
    → ((g : List KafkaRecord) → Follows g w → Follows g w')
    → AllFollow gs (set ws i w')
AllFollow-set [] [] i w w' h e keep = absurd (cc e)
AllFollow-set [] (v ∷ ws) i w w' h e keep = absurd h
AllFollow-set (g ∷ gs) [] i w w' h e keep = absurd h
AllFollow-set (g ∷ gs) (v ∷ ws) zero w w' h e keep =
    let same : v ≡ w = cc in (keep g (subst (Follows g) same h.0), h.1)
AllFollow-set (g ∷ gs) (v ∷ ws) (suc i) w w' h e keep = (h.0, AllFollow-set gs ws i w w' h.1 e keep)

handled-Follows :
    (group : List KafkaRecord) (w : Worker) (r : KafkaRecord)
    → w.current ≡ some r
    → Follows group w
    → Follows group (record w { handled = w.handled ++ r ∷ []; current = none })
handled-Follows group w r e (inl (live, split)) = inl (
  live,
  split
      ∙ ap (λ c. w.handled ++ in_progress c w.rest) e
      ∙ sym (append_assoc w.handled (r ∷ []) w.rest),
)
handled-Follows group w r e (inr (_, idle, _)) = cc

failed-Follows :
    (group : List KafkaRecord) (w : Worker) (r : KafkaRecord)
    → w.current ≡ some r
    → Follows group w
    → Follows group (record w { current = none; running = false })
failed-Follows group w r e (inl (live, split)) =
    inr (refl, refl, (in_progress w.current w.rest, split))
failed-Follows group w r e (inr (_, idle, _)) = cc

module _ (gs : List (List KafkaRecord)) (index : RecordIndex) (b : Batch)
    (h : AllFollow gs b.workers) where
  return_record-AllFollow :
      (i : ℕ) (w : Worker) (current : Option KafkaRecord) (result : Option GoError)
      → get_elem? b.workers i ≡ some w
      → w.current ≡ current
      → AllFollow gs (return_record b i w current result).workers
  return_record-AllFollow i w none result e c = h
  return_record-AllFollow i w (some r) none e c =
      AllFollow-set gs b.workers i w _ h e (λ g. handled-Follows g w r c)
  return_record-AllFollow i w (some r) (some x) e c =
      AllFollow-set gs b.workers i w _ h e (λ g. failed-Follows g w r c)

  return_at-AllFollow :
      (i : ℕ) (w : Option Worker) (result : Option GoError)
      → get_elem? b.workers i ≡ w
      → AllFollow gs (return_at b i w result).workers
  return_at-AllFollow i none result e = h
  return_at-AllFollow i (some w) result e = return_record-AllFollow i w w.current result e refl

  resume_at-AllFollow :
      (i : ℕ) (w : Option Worker)
      → get_elem? b.workers i ≡ w
      → AllFollow gs (resume_at b i w).workers
  resume_at-AllFollow i none e = h
  resume_at-AllFollow i (some w) e =
      AllFollow-set gs b.workers i w _ h e (λ g. resume_worker-Follows g b.collector.cancelled w)

  receive_from-AllFollow : (cs : List Completion) → AllFollow gs (receive_from index b cs).workers
  receive_from-AllFollow [] = h
  receive_from-AllFollow (c ∷ cs) = h

  step-AllFollow : (c : Choice) → AllFollow gs (step index b c).workers
  unfolding step
  step-AllFollow (resume i) = resume_at-AllFollow i (get_elem? b.workers i) refl
  step-AllFollow (handler_returned i result) =
      return_at-AllFollow i (get_elem? b.workers i) result refl
  step-AllFollow receive = receive_from-AllFollow b.channel
  step-AllFollow interrupt = h

run-AllFollow :
    (gs : List (List KafkaRecord)) (index : RecordIndex) (cs : List Choice) (b : Batch)
    → AllFollow gs b.workers
    → AllFollow gs (run index b cs).workers
unfolding run
run-AllFollow gs index [] b h = h
run-AllFollow gs index (c ∷ cs) b h =
    run-AllFollow gs index cs (step index b c) (step-AllFollow gs index b h c)

new_workers-AllFollow : (gs : List (List KafkaRecord)) → AllFollow gs (map new_worker gs)
new_workers-AllFollow [] = tt
new_workers-AllFollow (g ∷ gs) = (inl (refl, refl), new_workers-AllFollow gs)

AllFollow-get :
    (records : List KafkaRecord) (ks : List ProcessingKey) (ws : List Worker) (i : ℕ) (w : Worker)
    → AllFollow (map (λ k. with_key k records) ks) ws
    → get_elem? ws i ≡ some w
    → (k : ProcessingKey) × (get_elem? (map (λ j. with_key j records) ks) i
        ≡ some (with_key k records))
      × ((tail : List KafkaRecord) × (with_key k records ≡ w.handled ++ tail))
AllFollow-get records [] [] i w h e = absurd (cc e)
AllFollow-get records [] (v ∷ ws) i w h e = absurd h
AllFollow-get records (k ∷ ks) [] i w h e = absurd h
AllFollow-get records (k ∷ ks) (v ∷ ws) zero w h e =
    let same : v ≡ w = cc in
    (k, refl, Follows-prefix (with_key k records) w (subst (Follows (with_key k records)) same h.0))
AllFollow-get records (k ∷ ks) (v ∷ ws) (suc i) w h e = AllFollow-get records ks ws i w h.1 e

-- Whatever the order in which the goroutines run, each one works on the records of one key in poll
-- order, and what it has handled without an error is at any time the first of them.
pub handled_in_order :
    (tracker : Tracker) (index : RecordIndex) (records : List KafkaRecord) (schedule : List Choice)
    (i : ℕ) (w : Worker)
    → get_elem? (run index (start tracker records) schedule).workers i ≡ some w
    → (k : ProcessingKey) × (get_elem? (group_records_for_processing records) i
        ≡ some (with_key k records))
      × ((tail : List KafkaRecord) × (with_key k records ≡ w.handled ++ tail))
unfolding start
handled_in_order tracker index records schedule i w at =
    let groups = group_records_for_processing records in
    let (ks, e, _, _) = group_records-with_key records in
    let (k, here, prefix) =
      AllFollow-get records ks (run index (start tracker records) schedule).workers i w
        (subst (λ gs. AllFollow gs (run index (start tracker records) schedule).workers) e
          (run-AllFollow groups index schedule (start tracker records)
            (new_workers-AllFollow groups)))
        at in
    (k, ap (λ gs. get_elem? gs i) e ∙ here, prefix)
