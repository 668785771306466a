-- ===== src/Kafka/AsyncRunner/Order.antt =====
-- internal/adapter/kafka/async_consumer.go: the orders in which AsyncConsumerRunner.Run may make its
-- calls; the latest event of a trace stands first.
use variable_star_classifica.Prelude.{ℕ, ◌≡◌, false, List, [], ◌∷◌, none}
use variable_star_classifica.Errors.{ok}
use variable_star_classifica.Kafka.Records.{KafkaRecord, first_fetch_error, records_from_fetches}
use variable_star_classifica.Kafka.AsyncRunner.{
  RunnerEvent, polled, processed, checked, committed, observed, released, allowed_rebalance,
}

-- Nothing has been polled, or a rebalance was allowed since.
abbrev pub IsQuiet : List RunnerEvent → Type 0
IsQuiet [] = Unit
IsQuiet (allowed_rebalance ∷ es) = Unit
IsQuiet _ = ⊥

-- A batch is what the poll before it brought, and it is not empty.
abbrev pub MayProcess : List KafkaRecord → List RunnerEvent → Type 0
MayProcess rs (polled f ∷ es) =
    (first_fetch_error f ≡ none) × (records_from_fetches f ≡ ok rs) × ¬ (rs ≡ [])
MayProcess rs _ = ⊥

abbrev pub MayCheck : List RunnerEvent → Type 0
MayCheck (processed rs outcome ∷ es) = Unit
MayCheck _ = ⊥

-- What is committed is what the batch gave, no rebalance was requested, and there is something.
abbrev pub MayCommitBatch : List KafkaRecord → List RunnerEvent → Type 0
MayCommitBatch rs (checked false ∷ (processed batch (commits, n, e) ∷ es)) =
    (rs ≡ commits) × ¬ (rs ≡ [])
MayCommitBatch rs _ = ⊥

-- The observer is told the number of records that the batch completed, after its commit succeeded.
abbrev pub MayObserve : ℕ → List RunnerEvent → Type 0
MayObserve n (committed rs none ∷ (checked false ∷ (processed batch (commits, m, e) ∷ es))) = n ≡ m
MayObserve n _ = ⊥

-- A batch is bound and not released.
abbrev pub MayRelease : List RunnerEvent → Type 0
MayRelease (checked b ∷ es) = Unit
MayRelease (committed rs e ∷ es) = Unit
MayRelease (observed n ∷ es) = Unit
MayRelease _ = ⊥

-- A rebalance is allowed once for a poll, and never while a batch is bound.
abbrev pub MayAllow : List RunnerEvent → Type 0
MayAllow (polled f ∷ es) = Unit
MayAllow (released ∷ es) = Unit
MayAllow _ = ⊥

abbrev pub IsOrdered : List RunnerEvent → Type 0
IsOrdered [] = Unit
IsOrdered (polled f ∷ es) = IsQuiet es × IsOrdered es
IsOrdered (processed rs outcome ∷ es) = MayProcess rs es × IsOrdered es
IsOrdered (checked b ∷ es) = MayCheck es × IsOrdered es
IsOrdered (committed rs e ∷ es) = MayCommitBatch rs es × IsOrdered es
IsOrdered (observed n ∷ es) = MayObserve n es × IsOrdered es
IsOrdered (released ∷ es) = MayRelease es × IsOrdered es
IsOrdered (allowed_rebalance ∷ es) = MayAllow es × IsOrdered es
