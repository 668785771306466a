-- ===== src/Application/Handlers/Candidates/Acknowledgement.antt =====
-- internal/application/candidate_handler.go: what a nil means.
use variable_star_classifica.Prelude.{
  ◌≡◌, refl, subst, Bool, true, false, List, ◌∷◌, Option, none, some, Text, ltb, arith, ℤ, IsToken,
}
use variable_star_classifica.Prelude.Effects.{World}
use variable_star_classifica.Errors.{GoError, MessageError, as_candidate_error, Result, ok, err}
use variable_star_classifica.Application.Messaging.{
  OutboundMessage, InboundMessage, Time, delivered, delivered-Delivers,
}
use variable_star_classifica.Application.Proto.{Protobuf}
use variable_star_classifica.Application.Candidates.{
  CandidateEventInput, ClassificationPolicyDecision, decode_candidate_event_message,
  minimum_eligible_epoch_count, evaluate,
}
use variable_star_classifica.Application.Commands.{
  input_identity, build_classification_command_message, decode_classification_command_message,
}
use variable_star_classifica.Application.Commands.RoundTrip.{
  command_input_for, candidate_job, build-candidate_job, decode-build_command,
}
use variable_star_classifica.Application.DeadLetters.{build_candidate_dlq_message}
use variable_star_classifica.Application.DeadLetters.Recovery.{
  recover, build_candidate_dlq_message-recover,
}
use variable_star_classifica.Application.Handlers.{Event, published, Environment}
use variable_star_classifica.Application.Handlers.Candidates.{
  CandidateHandler, after_candidate_letter, publish_candidate_letter, after_command_publish,
  publish_command, after_decode_failure, publish_if, after_decision, after_candidate_decode,
  candidate_handle,
}
use variable_star_classifica.Domain.Identity.{UuidLibrary, generate_job_id}

-- The worker decodes the command, wherever it is delivered, to the candidate and the decision.
pub record Commands (pb : Protobuf) (lib : UuidLibrary) (topic : Text) (input : CandidateEventInput)
    (decision : ClassificationPolicyDecision) (command : OutboundMessage) : Type 0 where
  pub job : Text
  pub with_job : generate_job_id lib (input_identity input decision) ≡ ok job
  pub decodes :
      (partition offset : ℤ) (timestamp : Time)
      → decode_classification_command_message pb lib topic
          (delivered command partition offset timestamp)
        ≡ ok (command_input_for job input decision)

module _ (env : Environment) (pb : Protobuf) (lib : UuidLibrary) (handler : CandidateHandler)
    (m : InboundMessage) where
  -- The last event: the command of the candidate was published, or a dead letter from which the
  -- message can be recovered.
  pub data CandidateSettled : List Event → Type 0 where
    by_command :
        {past : List Event} {command : OutboundMessage} (input : CandidateEventInput)
        (decision : ClassificationPolicyDecision)
        → decode_candidate_event_message pb handler.candidate_topic m ≡ ok input
        → evaluate handler.policy input ≡ ok decision
        → Commands pb lib handler.command_topic input decision command
        → CandidateSettled (published command none ∷ past)
    by_candidate_letter :
        {past : List Event} {letter : OutboundMessage}
        → letter.topic ≡ handler.candidate_dlq_topic
        → recover 4 letter ≡ some m
        → CandidateSettled (published letter none ∷ past)

  IfNil : Option GoError × World Event → Type 0
  IfNil (none, x) = CandidateSettled x.trace
  IfNil (some e, x) = Unit

  letter-IfNil :
      (permanent : MessageError) (letter : Result OutboundMessage) (w : World Event)
      → build_candidate_dlq_message handler.candidate_dlq_topic m permanent ≡ letter
      → IfNil (publish_candidate_letter env letter w)
  unfolding publish_candidate_letter IfNil
  letter-IfNil permanent (err e) w same = tt
  letter-IfNil permanent (ok letter) w same = published-IfNil (env.publish letter w.tick) _
    where
      published-IfNil :
          (result : Option GoError) (v : World Event)
          → IfNil (
              after_candidate_letter env result
                (record v { trace = published letter result ∷ v.trace }))
      published-IfNil (some e) v = tt
      published-IfNil none v =
          let (to, back) =
            build_candidate_dlq_message-recover handler.candidate_dlq_topic m permanent letter
              same in
          by_candidate_letter to back

  failure-IfNil :
      (e : GoError) (permanent : Option MessageError) (w : World Event)
      → IfNil (after_decode_failure env pb lib handler m e permanent w)
  unfolding after_decode_failure IfNil
  failure-IfNil e none w = tt
  failure-IfNil e (some permanent) w = letter-IfNil permanent _ w refl

  decode-enough :
      (input : CandidateEventInput)
      → decode_candidate_event_message pb handler.candidate_topic m ≡ ok input
      → ltb input.eligible_epoch_count minimum_eligible_epoch_count ≡ false
  unfolding decode_candidate_event_message
  decode-enough input h = ground arith

  module _ (ids : (u : lib.Uuid) → IsToken (lib.to_string u)) (input : CandidateEventInput)
      (decoded : decode_candidate_event_message pb handler.candidate_topic m ≡ ok input) where
    command-Commands :
        (decision : ClassificationPolicyDecision) (command : OutboundMessage)
        → build_classification_command_message pb lib handler.command_topic input decision m.headers
          ≡ ok command
        → Commands pb lib handler.command_topic input decision command
    command-Commands decision command built = record {
      job = candidate_job pb lib handler.command_topic input decision m.headers;
      with_job =
          build-candidate_job pb lib handler.command_topic input decision m.headers command built;
      decodes = λ partition offset timestamp.
          (decode-build_command pb lib handler.command_topic input decision m.headers command
            (delivered command partition offset timestamp) ids built
            (delivered-Delivers command partition offset timestamp)).1;
    }

    publish-IfNil :
        (decision : ClassificationPolicyDecision) (command : Result OutboundMessage)
        (w : World Event)
        → evaluate handler.policy input ≡ ok decision
        → build_classification_command_message pb lib handler.command_topic input decision m.headers
          ≡ command
        → IfNil (publish_command env command w)
    unfolding publish_command IfNil
    publish-IfNil decision (err e) w decided built = tt
    publish-IfNil decision (ok command) w decided built =
        published-IfNil (env.publish command w.tick) _
      where
        published-IfNil :
            (result : Option GoError) (v : World Event)
            → IfNil (
                after_command_publish env result
                  (record v { trace = published command result ∷ v.trace }))
        published-IfNil (some e) v = tt
        published-IfNil none v =
            by_command input decision decoded decided (command-Commands decision command built)

    if-IfNil :
        (decision : ClassificationPolicyDecision) (wanted : Bool) (w : World Event)
        → evaluate handler.policy input ≡ ok decision
        → decision.should_classify ≡ wanted
        → IfNil (publish_if env pb lib handler m input decision wanted w)
    unfolding publish_if
    if-IfNil decision true w decided same = publish-IfNil decision _ w decided refl
    if-IfNil decision false w decided same =
        absurd (evaluate-wanted decision decided same (decode-enough input decoded))
      where
        evaluate-wanted :
            (d : ClassificationPolicyDecision)
            → evaluate handler.policy input ≡ ok d
            → d.should_classify ≡ false
            → ltb input.eligible_epoch_count minimum_eligible_epoch_count ≡ false
            → ⊥
        evaluate-wanted d e s l = unfold evaluate in ground arith

    decision-IfNil :
        (decided : Result ClassificationPolicyDecision) (w : World Event)
        → evaluate handler.policy input ≡ decided
        → IfNil (after_decision env pb lib handler m input decided w)
    unfolding after_decision IfNil
    decision-IfNil (err e) w same = tt
    decision-IfNil (ok decision) w same = if-IfNil decision decision.should_classify w same refl

  decode-IfNil :
      ((u : lib.Uuid) → IsToken (lib.to_string u))
      → (decoded : Result CandidateEventInput) (w : World Event)
      → decode_candidate_event_message pb handler.candidate_topic m ≡ decoded
      → IfNil (after_candidate_decode env pb lib handler m decoded w)
  unfolding after_candidate_decode
  decode-IfNil ids (err e) w same = failure-IfNil e (as_candidate_error e) w
  decode-IfNil ids (ok input) w same =
      decision-IfNil ids input same (evaluate handler.policy input) w refl

  -- If UUIDs print as visible ASCII characters, then the candidate handler returns nil only when the
  -- broker has just taken either the command of the candidate, which the worker decodes to the
  -- candidate's fields and the policy's decision, or a dead letter from which the message can be
  -- recovered. No message is acknowledged without one of the two.
  pub candidate_handle-Settled :
      ((u : lib.Uuid) → IsToken (lib.to_string u))
      → (w x : World Event) → candidate_handle env pb lib handler m w ≡ (none, x)
      → CandidateSettled x.trace
  unfolding candidate_handle IfNil
  candidate_handle-Settled ids w x h =
      subst IfNil h
        (decode-IfNil ids (decode_candidate_event_message pb handler.candidate_topic m) w refl)
