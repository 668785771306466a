-- ===== src/Application/Handlers/Writer.antt =====
-- internal/application/classification_result_writer.go and classification_run_saver_timeout.go. The
-- repository answers by tick; a bounded context is one that the repository looks at itself.
pub mod Saving
use variable_star_classifica.Prelude.{ℕ, ◌+◌, Bool, true, false, Option, none, some, Text, ◌∷◌}
use variable_star_classifica.Prelude.Effects.{World, Effect, pure, ask, call, ◌>>=◌}
use variable_star_classifica.Errors.{
  GoError, wrap, result_error, classification_run_conflict, is, Result, ok, err,
}
use variable_star_classifica.Application.Messaging.{InboundMessage}
use variable_star_classifica.Application.Proto.{Protobuf}
use variable_star_classifica.Application.Results.{
  ClassificationResultInput, decode_classification_result_message,
}
use variable_star_classifica.Application.Handlers.{Event, saved, Environment, Handler}
use variable_star_classifica.Domain.Identity.{UuidLibrary}
use variable_star_classifica.Domain.Classification.{ClassificationRun}
use variable_star_classifica.Storage.Repository.{SaveRunResult}

-- ClassificationRunSaver
abbrev pub ClassificationRunSaver : Type 0
ClassificationRunSaver = ClassificationRun → Effect Event (Result SaveRunResult)

-- The error of a Go call that returns a value and an error.
abbrev pub error_of : {A : Type 0} → Result A → Option GoError
error_of (ok a) = none
error_of (err e) = some e

-- A repository that answers by tick.
abbrev pub saver : (ClassificationRun → ℕ → Result SaveRunResult) → ClassificationRunSaver
saver answers run = call (answers run) (λ result. saved run (error_of result))

module _ (next : ClassificationRunSaver) (run : ClassificationRun) where
  unfoldable pub save_unless : Option GoError → Effect Event (Result SaveRunResult)
  save_unless (some over) = pure (err over)
  save_unless none = next run

-- TimeoutClassificationRunSaver.SaveRunAndMaybeAdvanceCurrent
unfoldable pub timeout_saver : Environment → ClassificationRunSaver → ClassificationRunSaver
unfolding save_unless
timeout_saver env next run = ask env.context_error >>= save_unless next run

-- errors.Is(err, ErrClassificationRunConflict)
unfoldable pub save_error : GoError → Bool → GoError
save_error e true = result_error "RESULT_REPOSITORY_CONFLICT" "classification_run" e
save_error e false = wrap "save classification result" e

unfoldable pub after_save : Result SaveRunResult → Effect Event (Option GoError)
unfolding save_error
after_save (ok result) = pure none
after_save (err e) = pure (some (save_error e (is classification_run_conflict e)))

module _ (save : ClassificationRunSaver) where
  unfoldable pub save_decoded : Result ClassificationResultInput → Effect Event (Option GoError)
  unfolding after_save
  save_decoded (err e) = pure (some e)
  save_decoded (ok input) = save input.run >>= after_save

  module _ (pb : Protobuf) (lib : UuidLibrary) (result_topic : Text) (m : InboundMessage) where
    unfoldable pub write_unless : Option GoError → Effect Event (Option GoError)
    unfolding save_decoded
    write_unless (some over) = pure (some over)
    write_unless none = save_decoded (decode_classification_result_message lib pb result_topic m)

-- ClassificationResultWriterHandler.Handle
unfoldable pub writer_handle :
    Environment → ClassificationRunSaver → Protobuf → UuidLibrary → Text → Handler
unfolding write_unless
writer_handle env save pb lib result_topic m =
    ask env.context_error >>= write_unless save pb lib result_topic m
