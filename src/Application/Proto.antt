-- ===== src/Application/Proto.antt =====
-- gen/go/astro/classification/v1: the messages, as far as the program reads them, and what it uses of
-- google.golang.org/protobuf. An enum is an int32 that may hold any value; a nil pointer is `none`.
use variable_star_classifica.Prelude.{ℕ, Bool, false, ◌≡◌, [], Option, none, Text, ℤ, pos}
use variable_star_classifica.Errors.{GoError, Result, ok}
use variable_star_classifica.Application.Messaging.{Time}
use variable_star_classifica.Domain.Classification.{Float32}

pub record TraceContext : Type 0 where
  pub trace_id : Text
  pub correlation_id : Text
  pub causation_id : Text

pub record CandidateEvent (Timestamp : Type 0) : Type 0 where
  pub event_id : Text
  pub event_type : ℤ
  pub object_id : Text
  pub candidate_revision : ℤ
  pub light_curve_revision : ℤ
  pub eligible_epoch_count : ℕ  -- uint32
  pub occurred_at : Option Timestamp
  pub producer : Text
  pub upstream_pipeline_version : Text
  pub trace_context : Option TraceContext

pub record ClassificationCommand (Timestamp : Type 0) : Type 0 where
  pub job_id : Text
  pub object_id : Text
  pub candidate_revision : ℤ
  pub light_curve_revision : ℤ
  pub declared_eligible_epoch_count : ℕ  -- uint32
  pub model_bundle_version : Text
  pub execution_mode : ℤ
  pub priority : ℤ
  pub created_at : Option Timestamp
  pub deadline_at : Option Timestamp
  pub trace_context : Option TraceContext

pub record CoarseProbabilities : Type 0 where
  pub rotating : Float32
  pub cataclysmic : Float32
  pub eclipsing_binary : Float32
  pub long_period : Float32
  pub pulsating : Float32
  pub rr_lyrae : Float32
  pub supernova : Float32

pub record FineConditionalProbabilities : Type 0 where
  pub ew_given_eclipsing_binary : Float32
  pub ea_given_eclipsing_binary : Float32
  pub by_dra_given_rotating : Float32
  pub rs_cvn_given_rotating : Float32
  pub rrab_given_rr_lyrae : Float32
  pub rrc_given_rr_lyrae : Float32
  pub sr_given_long_period : Float32
  pub mira_given_long_period : Float32
  pub dsct_given_pulsating : Float32
  pub cep_given_pulsating : Float32

pub record LeafProbabilities : Type 0 where
  pub ew : Float32
  pub ea : Float32
  pub by_dra : Float32
  pub rs_cvn : Float32
  pub rrab : Float32
  pub rrc : Float32
  pub sr : Float32
  pub mira : Float32
  pub dsct : Float32
  pub cep : Float32
  pub cataclysmic : Float32
  pub supernova : Float32

pub record ClassificationResult (Timestamp : Type 0) : Type 0 where
  pub run_id : Text
  pub job_id : Text
  pub object_id : Text
  pub candidate_revision : ℤ
  pub light_curve_revision : ℤ
  pub effective_epoch_count : ℕ  -- uint32
  pub coarse_source_type : ℤ
  pub coarse_source_run_id : Option Text
  pub coarse_source_light_curve_revision : ℤ
  pub coarse_source_epoch_count : ℕ  -- uint32
  pub xgboost_executed : Bool
  pub versions : Option Text  -- ResolvedModelVersions, which holds the model bundle version
  pub coarse_probabilities : Option CoarseProbabilities
  pub fine_conditional_probabilities : Option FineConditionalProbabilities
  pub leaf_probabilities : Option LeafProbabilities
  pub predicted_coarse_class : ℤ
  pub predicted_leaf_class : ℤ
  pub completed_at : Option Timestamp
  pub trace_context : Option TraceContext
  pub execution_mode : ℤ

-- The messages with no field set.
module _ {Timestamp : Type 0} where
  abbrev pub empty_command : ClassificationCommand Timestamp
  empty_command = record {
    job_id = [];
    object_id = [];
    candidate_revision = pos 0;
    light_curve_revision = pos 0;
    declared_eligible_epoch_count = 0;
    model_bundle_version = [];
    execution_mode = pos 0;
    priority = pos 0;
    created_at = none;
    deadline_at = none;
    trace_context = none;
  }

  abbrev pub empty_result : ClassificationResult Timestamp
  empty_result = record {
    run_id = [];
    job_id = [];
    object_id = [];
    candidate_revision = pos 0;
    light_curve_revision = pos 0;
    effective_epoch_count = 0;
    coarse_source_type = pos 0;
    coarse_source_run_id = none;
    coarse_source_light_curve_revision = pos 0;
    coarse_source_epoch_count = 0;
    xgboost_executed = false;
    versions = none;
    coarse_probabilities = none;
    fine_conditional_probabilities = none;
    leaf_probabilities = none;
    predicted_coarse_class = pos 0;
    predicted_leaf_class = pos 0;
    completed_at = none;
    trace_context = none;
    execution_mode = pos 0;
  }

-- proto.Marshal and proto.Unmarshal at one message type: what was marshalled is read back, and no bytes
-- are the empty message.
pub record Codec (M : Type 0) (empty : M) : Type 0 where
  pub marshal : M → Result Text
  pub unmarshal : Text → Result M
  pub unmarshal-marshal : (m : M) (bytes : Text) → marshal m ≡ ok bytes → unmarshal bytes ≡ ok m
  pub unmarshal_nothing : unmarshal [] ≡ ok empty

-- The library. New and AsTime are inverse on the times of the program, which are in UTC.
pub record Protobuf : Type 1 where
  pub Timestamp : Type 0
  pub new_timestamp : Time → Timestamp
  pub check_valid : Timestamp → Option GoError
  pub as_time : Timestamp → Time
  pub as_time-new_timestamp : (t : Time) → as_time (new_timestamp t) ≡ t
  pub unmarshal_event : Text → Result (CandidateEvent Timestamp)
  pub commands : Codec (ClassificationCommand Timestamp) empty_command
  pub results : Codec (ClassificationResult Timestamp) empty_result
