-- ===== src/Lib.antt =====
-- Variable star classification: a model of the Go program, and what is proved of it.
--
-- The program classifies variable stars from light curves. A candidate event becomes a classification
-- command on a Kafka topic; a worker prepares the light curve, chooses how the coarse probabilities are
-- obtained, calls a Triton server, and publishes a result; a writer stores the result in PostgreSQL. What
-- cannot be processed goes to dead letter topics. Records are committed only when they were handled.
--
-- The files, with the sources that they model:
--   Prelude, Prelude/*        shared names, Boolean tests, lists, Go integers, byte strings, maps,
--                             effects, and loops with fuel
--   Errors                    error values, errors.Is and errors.As (internal/application)
--   Domain/Identity, Words    internal/domain/identity.go: GenerateJobID, GenerateRunID
--   Domain/Classification     internal/domain/classification.go
--   Application/Messaging     internal/application/messaging.go
--   Application/WorkerErrors  internal/application/classification_worker_error.go
--   Application/DeadLetters   internal/application/classification_command_dlq.go,
--                             classification_result_dlq.go, candidate_dlq.go
--   Application/Handlers      the effects of the handlers; Commands is
--                             classification_command_retry_handler.go,
--                             classification_command_dlq_handler.go and
--                             classification_command_handler.go, Results is
--                             classification_result_retry_handler.go and
--                             classification_result_dlq_handler.go
--   Application/LightCurves   internal/application/light_curve_preparer.go
--   Application/CoarseMode    internal/application/coarse_mode_selector.go
--   Application/Proto         the messages of gen/go/astro/classification/v1, and protobuf as a parameter
--   Application/Candidates    internal/application/candidate.go, classification_policy.go; the handler
--                             is Handlers/Candidates, of candidate_handler.go
--   Application/Commands      internal/application/classification_command.go,
--                             classification_command_decode.go
--   Application/Inputs        internal/application/classifier.go, light_curve_reader.go,
--                             classification_input_builder.go, classification_input_preparer.go
--   Application/Predictions, Runs
--                             internal/application/classification_run_builder.go
--   Application/Probabilities, ResultRules, Results
--                             internal/application/classification_result.go,
--                             classification_result_decode.go
--   Handlers/Worker           internal/application/classification_worker.go
--   Handlers/Writer           internal/application/classification_result_writer.go,
--                             classification_run_saver_timeout.go
--   Application/Pipeline      the worker and the writer joined by a message
--   Storage, Storage/*        internal/adapter/postgres/classification_repository.go and
--                             migrations/00002_create_classification_storage.sql: Tables holds the
--                             constraints and the SQL, Repository the operations
--   Triton, Triton/*          internal/adapter/triton/binary_tensor.go, classifier.go: Tensors and Values
--                             are the tensors, Messages the loops over those of a request and of a
--                             response, Classifier the checks and what becomes of the outputs
--   Kafka/Tracker             internal/adapter/kafka/partition_completion_tracker.go
--   Kafka/Groups, Async       internal/adapter/kafka/async_consumer.go: groupRecordsForProcessing and
--                             processBatch; Async/Schedule has its goroutines as steps
--   Kafka/AsyncRunner         internal/adapter/kafka/async_consumer.go: AsyncConsumerRunner.Run
--   Kafka/YieldRunner         internal/adapter/kafka/consumer_rebalance_yield.go
--   Kafka/Consumer            internal/adapter/kafka/consumer.go, record_processor.go
--   Kafka/RebalanceYield      internal/adapter/kafka/rebalance_yield.go
--   Observability/Backlog     internal/observability/kafkabacklog: source.go, position_reader.go and
--                             validateSnapshot of metrics.go
--   */Tests, Application/*Tests, Fixtures
--                             the theorems at concrete inputs
-- A definition has the name of the Go function in snake case; a helper by clauses stands for a branch of
-- the function above whose name its comment gives.
--
-- How the parts interact. The asynchronous consumer polls a batch, tracks it in the completion
-- tracker, splits it into groups, and gives each record to a handler; the handler is the chain of dead
-- letters, retries and worker. The candidate handler publishes the command that the worker decodes, and
-- the worker publishes the result that the writer decodes and saves. The selector asks the repository for a compatible run. A wrapped handler, a client, a timer, a
-- context and a connection are the environment: what they answer is a function of the number of answers
-- given before, or is a step that a schedule chooses.
--
-- Conventions. Strings and byte slices are lists of bytes, so that nil is the empty slice. Times are
-- nanoseconds since the zero time. Nil receivers, contexts and ports are not representable, and
-- neither is a nil record beyond the check that refuses it. Only the fixed part of an error's text is
-- kept. Logging is left out. A Go array is a list, of whose length a theorem is told, or which it
-- proves. A float is its bit pattern, ordered by its signed magnitude. Code that panics is not run. A
-- sync.Once is the first value that reaches it, a mutex makes its methods atomic, and the channel of
-- processBatch never blocks, since it has room for every record.
--
-- Fuel. A loop without a bound of its own takes fuel and says when it ran out. Loops over such fuel are
-- Prelude/Loops, where repeat_complete shows that one unit for each iteration is enough and that more
-- changes nothing; retry_handle-settles says it of the retries. Decimal digits and white space take the
-- number or the length itself as fuel.
--
-- Not under src/ and therefore parameters: the UUID library, the PostgreSQL server's reading of uuids and
-- times, the Kafka client, the protobuf library. Of protobuf it is assumed that Unmarshal reads what Marshal
-- wrote, that no bytes are the empty message, and that New and AsTime are inverse on times in UTC.
--
-- Not modelled: of the Triton adapter the JSON headers, the HTTP exchange and the contract gate; the model
-- bundle and light curve adapters, which are files and HTTP with JSON; observability but for the backlog of a
-- consumer group; and the commands
-- under cmd/, which wire the parts together.
pub mod Prelude
pub mod Errors
pub mod Domain
pub mod Application
pub mod Storage
pub mod Kafka
pub mod Triton
pub mod Observability
