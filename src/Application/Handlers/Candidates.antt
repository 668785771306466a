-- ===== src/Application/Handlers/Candidates.antt =====
-- internal/application/candidate_handler.go: CandidateHandler.Handle.
pub mod Acknowledgement
use variable_star_classifica.Prelude.{◌≡◌, Bool, true, false, Option, none, some, Text}
use variable_star_classifica.Prelude.Effects.{World, Effect, pure, call, ◌>>=◌}
use variable_star_classifica.Errors.{
  GoError, wrap, MessageError, as_candidate_error, Result, ok, err,
}
use variable_star_classifica.Application.Messaging.{OutboundMessage, InboundMessage}
use variable_star_classifica.Application.Proto.{Protobuf}
use variable_star_classifica.Application.Candidates.{
  CandidateEventInput, ClassificationPolicyDecision, decode_candidate_event_message, evaluate,
}
use variable_star_classifica.Application.Commands.{build_classification_command_message}
use variable_star_classifica.Application.DeadLetters.{build_candidate_dlq_message}
use variable_star_classifica.Application.Handlers.{Event, published, Environment, Handler}
use variable_star_classifica.Domain.Identity.{UuidLibrary}

-- The fields of a CandidateHandler that NewCandidateHandler has checked; a policy is its model bundle
-- version.
pub record CandidateHandler : Type 0 where
  pub candidate_topic : Text
  pub command_topic : Text
  pub candidate_dlq_topic : Text
  pub policy : Text

module _ (env : Environment) where
  unfoldable pub after_candidate_letter : Option GoError → Effect Event (Option GoError)
  after_candidate_letter (some e) = pure (some (wrap "publish candidate DLQ message" e))
  after_candidate_letter none = pure none

  unfoldable pub publish_candidate_letter : Result OutboundMessage → Effect Event (Option GoError)
  unfolding after_candidate_letter
  publish_candidate_letter (err e) = pure (some (wrap "build candidate DLQ message" e))
  publish_candidate_letter (ok letter) =
      call (env.publish letter) (published letter) >>= after_candidate_letter

  unfoldable pub after_command_publish : Option GoError → Effect Event (Option GoError)
  after_command_publish (some e) = pure (some (wrap "publish classification command message" e))
  after_command_publish none = pure none

  unfoldable pub publish_command : Result OutboundMessage → Effect Event (Option GoError)
  unfolding after_command_publish
  publish_command (err e) = pure (some (wrap "build classification command message" e))
  publish_command (ok command) =
      call (env.publish command) (published command) >>= after_command_publish

  module _ (pb : Protobuf) (lib : UuidLibrary) (handler : CandidateHandler)
      (m : InboundMessage) where
    -- A permanent error goes to the dead letters, any other is returned.
    unfoldable pub after_decode_failure :
        GoError → Option MessageError → Effect Event (Option GoError)
    unfolding publish_candidate_letter
    after_decode_failure e none = pure (some (wrap "decode candidate event" e))
    after_decode_failure e (some permanent) =
        publish_candidate_letter
          (build_candidate_dlq_message handler.candidate_dlq_topic m permanent)

    unfoldable pub publish_if :
        CandidateEventInput → ClassificationPolicyDecision → Bool → Effect Event (Option GoError)
    unfolding publish_command
    publish_if input decision false = pure none
    publish_if input decision true =
        publish_command (
          build_classification_command_message pb lib handler.command_topic input decision
            m.headers)

    unfoldable pub after_decision :
        CandidateEventInput → Result ClassificationPolicyDecision → Effect Event (Option GoError)
    unfolding publish_if
    after_decision input (err e) = pure (some (wrap "evaluate classification policy" e))
    after_decision input (ok decision) = publish_if input decision decision.should_classify

    unfoldable pub after_candidate_decode :
        Result CandidateEventInput → Effect Event (Option GoError)
    unfolding after_decode_failure after_decision
    after_candidate_decode (err e) = after_decode_failure e (as_candidate_error e)
    after_candidate_decode (ok input) = after_decision input (evaluate handler.policy input)

-- CandidateHandler.Handle
unfoldable pub candidate_handle : Environment → Protobuf → UuidLibrary → CandidateHandler → Handler
unfolding after_candidate_decode
candidate_handle env pb lib handler m =
    after_candidate_decode env pb lib handler m
      (decode_candidate_event_message pb handler.candidate_topic m)
