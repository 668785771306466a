-- ===== src/Application/Pipeline.antt =====
-- internal/application: the worker of classification_worker.go and the writer of
-- classification_result_writer.go, joined by the messages between them.
use variable_star_classifica.Prelude.{
  ℕ, ◌+◌, ◌≡◌, ◌≢◌, refl, List, [], ◌∷◌, Option, none, some, Text, ℤ,
}
use variable_star_classifica.Prelude.Effects.{World}
use variable_star_classifica.Errors.{Result, ok}
use variable_star_classifica.Application.Messaging.{
  OutboundMessage, InboundMessage, Time, delivered,
}
use variable_star_classifica.Application.Proto.{Protobuf}
use variable_star_classifica.Application.Results.{
  ClassificationResultInput, decode_classification_result_message,
}
use variable_star_classifica.Application.Handlers.{Event, published, saved, Environment}
use variable_star_classifica.Application.Handlers.Worker.{WorkerEnvironment, worker_handle}
use variable_star_classifica.Application.Handlers.Worker.Decoding.{IsReliable}
use variable_star_classifica.Application.Handlers.Worker.Publishing.{
  ResultPublished, by_result, worker_handle-ResultPublished,
}
use variable_star_classifica.Application.Handlers.Writer.{
  saver, timeout_saver, save_unless, after_save, save_decoded, write_unless, writer_handle,
}
use variable_star_classifica.Application.Handlers.Writer.Saving.{IsIdentified, decode-IsIdentified}
use variable_star_classifica.Domain.Identity.{UuidLibrary}
use variable_star_classifica.Domain.Classification.{ClassificationRun}
use variable_star_classifica.Storage.Repository.{SaveRunResult}

module _ (pb : Protobuf) (lib : UuidLibrary) (result_topic : Text) (env : Environment)
    (answers : ClassificationRun → ℕ → Result SaveRunResult) (m : InboundMessage) where
  -- A writer whose context has not ended and whose repository stores the run returns nil.
  write-stores :
      (input : ClassificationResultInput) (stored : SaveRunResult) (w : World Event)
      → decode_classification_result_message lib pb result_topic m ≡ ok input
      → env.context_error w.tick ≡ none
      → env.context_error (w.tick + 1) ≡ none
      → answers input.run (w.tick + 1 + 1) ≡ ok stored
      → writer_handle env (timeout_saver env (saver answers)) pb lib result_topic m w
        ≡ (none, record { tick = w.tick + 1 + 1 + 1; trace = saved input.run none ∷ w.trace })
  unfolding writer_handle write_unless save_decoded timeout_saver save_unless after_save
  write-stores input stored w h alive still answered = rw (alive, h, still, answered) refl

-- The message that was published last.
abbrev pub last_published : List Event → Option OutboundMessage
last_published [] = none
last_published (published o none ∷ es) = some o
last_published (e ∷ es) = last_published es

module _ (worker : WorkerEnvironment) (pb : Protobuf) (lib : UuidLibrary) (command_topic : Text)
    (result_topic : Text) (command : InboundMessage) (writer : Environment)
    (answers : ClassificationRun → ℕ → Result SaveRunResult) where
  -- The result that the worker published last is stored by the writer that reads it.
  pub record IsStored (trace : List Event) (partition offset : ℤ) (timestamp : Time)
      (v : World Event) : Type 0 where
    pub o : OutboundMessage
    pub run : ClassificationRun
    pub last : last_published trace ≡ some o
    pub identified : IsIdentified lib o.key run
    pub stored :
        writer_handle writer
          (timeout_saver writer (saver answers))
          pb
          lib
          result_topic
          (delivered o partition offset timestamp)
          v
        ≡ (none, record { tick = v.tick + 1 + 1 + 1; trace = saved run none ∷ v.trace })

  published-IsStored :
      (trace : List Event) (partition offset : ℤ) (timestamp : Time) (v : World Event)
      → writer.context_error v.tick ≡ none
      → writer.context_error (v.tick + 1) ≡ none
      → ((run : ClassificationRun) (t : ℕ) → (s : SaveRunResult) × (answers run t ≡ ok s))
      → ResultPublished worker pb lib command_topic result_topic command trace
      → IsStored trace partition offset timestamp v
  published-IsStored _ partition offset timestamp v alive still stores
        (by_result {o = o} c run decoded job object revision decodes) =
      record {
        o = o;
        run = run;
        last = refl;
        identified =
            decode-IsIdentified lib pb result_topic (delivered o partition offset timestamp)
              (record { run = run; trace_context = c.trace_context })
              (decodes partition offset timestamp);
        stored =
            let (s, answered) = stores run (v.tick + 1 + 1) in
            write-stores pb lib result_topic writer answers (delivered o partition offset timestamp)
              (record { run = run; trace_context = c.trace_context }) s v
              (decodes partition offset timestamp) alive still answered;
      }

  -- If the classifier returns vectors of the model's sizes, the clock times that a Timestamp can
  -- hold and the repository source ids that are canonical texts of UUIDs other than nil, the worker
  -- has returned nil, and the contexts of a writer have not ended and its repository stores every
  -- run, then the writer that reads the message which the worker published last, wherever it is
  -- delivered, returns nil after storing one run: the one whose job ID and run ID are determined by
  -- its own content and whose relations hold.
  pub worker_handle-writer_handle :
      result_topic ≢ []
      → IsReliable worker pb lib
      → (w x : World Event)
      → worker_handle worker pb lib command_topic result_topic command w ≡ (none, x)
      → (partition offset : ℤ) (timestamp : Time) (v : World Event)
      → writer.context_error v.tick ≡ none
      → writer.context_error (v.tick + 1) ≡ none
      → ((run : ClassificationRun) (t : ℕ) → (s : SaveRunResult) × (answers run t ≡ ok s))
      → IsStored x.trace partition offset timestamp v
  worker_handle-writer_handle named reliable w x h partition offset timestamp v alive still stores =
      published-IsStored x.trace partition offset timestamp v alive still stores (
        worker_handle-ResultPublished worker pb lib command_topic result_topic command named
          reliable w x h)
