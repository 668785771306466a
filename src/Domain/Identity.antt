-- ===== src/Domain/Identity.antt =====
-- internal/domain/identity.go: the identity of a classification job, its validation, its frozen v1
-- encoding, and the identifiers that are derived from it. UUIDs (github.com/google/uuid) are a
-- parameter.
pub mod Encoding
pub mod Ids
use variable_star_classifica.Prelude.{
  ℕ, ◌-◌, ◌^◌, ◌≡◌, Bool, true, false, not, ◌++◌, [], ◌∷◌, Option, none, some, String, Text, codes,
  eqb_text, contains_nul, trim_space, length, ltb, ◌==◌, if◌then◌else◌, ◌||◌, ℤ, pos, leb_ℤ,
}
use variable_star_classifica.Errors.{
  GoError, message, field_message, Result, ok, err, ◌>>=◌, ◌>>◌, check, context, refuse_if,
}
use variable_star_classifica.Domain.Words.{put_uint32, put_uint64, uint64_of}

-- A uint8 with four named values.
abbrev pub ExecutionMode : Type 0
ExecutionMode = ℕ

abbrev pub execution_mode_unspecified : ExecutionMode
execution_mode_unspecified = 0

abbrev pub execution_mode_production : ExecutionMode
execution_mode_production = 1

abbrev pub execution_mode_shadow : ExecutionMode
execution_mode_shadow = 2

abbrev pub execution_mode_reprocess : ExecutionMode
execution_mode_reprocess = 3

pub record JobIdentity : Type 0 where
  pub object_id : Text
  pub light_curve_revision : ℤ
  pub model_bundle_version : Text
  pub execution_mode : ExecutionMode

abbrev pub job_name_prefix : Text
job_name_prefix = codes "astro.classification.job.v1"

abbrev pub run_name : Text
run_name = codes "classification-run-v1"

-- The largest uint32.
abbrev pub max_uint32 : ℕ
max_uint32 = 2 ^ 32 - 1

unfoldable pub validate_identity_string : String → Text → Option GoError
validate_identity_string field value =
    if eqb_text value []
    then some (field_message field "must not be empty")
    else if not (eqb_text (trim_space value) value)
    then some (field_message field "must not contain leading or trailing whitespace")
    else if contains_nul value
    then some (field_message field "must not contain NUL")
    else if ltb max_uint32 (length value)
    then some (field_message field "is too long")
    else none

-- The `switch` at the end of validateJobIdentity.
unfoldable pub validate_execution_mode : ExecutionMode → Option GoError
validate_execution_mode mode =
    if mode == execution_mode_production
      || (mode == execution_mode_shadow || mode == execution_mode_reprocess)
    then none
    else some (message "invalid execution mode")

unfoldable pub validate_job_identity : JobIdentity → Result (Unit {0})
unfolding validate_identity_string validate_execution_mode
validate_job_identity identity = do
  check (validate_identity_string "object ID" identity.object_id)
  refuse_if (leb_ℤ identity.light_curve_revision (pos 0))
      (message "light curve revision must be greater than zero")
  check (validate_identity_string "model bundle version" identity.model_bundle_version)
  check (validate_execution_mode identity.execution_mode)

-- The length goes through uint32.
unfoldable pub append_length_prefixed_string : Text → Text → Text
append_length_prefixed_string dst value = (dst ++ put_uint32 (length value)) ++ value

-- The bytes that GenerateJobID hashes, appended in its order.
unfoldable pub job_payload : JobIdentity → Text
unfolding append_length_prefixed_string
job_payload identity =
    let named = append_length_prefixed_string [] job_name_prefix in
    let with_object = append_length_prefixed_string named identity.object_id in
    let with_revision = with_object ++ put_uint64 (uint64_of identity.light_curve_revision) in
    let with_bundle = append_length_prefixed_string with_revision identity.model_bundle_version in
    with_bundle ++ identity.execution_mode ∷ []

-- What the program uses of github.com/google/uuid. `parse` reads what `to_string` prints.
pub record UuidLibrary : Type 1 where
  pub Uuid : Type 0
  pub name_space_url : Uuid
  pub new_sha1 : Uuid → Text → Uuid
  pub to_string : Uuid → Text
  pub parse : Text → Option Uuid
  pub is_nil : Uuid → Bool
  pub parse-to_string : (u : Uuid) → parse (to_string u) ≡ some u

module _ (lib : UuidLibrary) where
  open lib use {Uuid, name_space_url, new_sha1, to_string, parse, is_nil}

  unfoldable pub generate_job_id : JobIdentity → Result Text
  generate_job_id identity = do
    validate_job_identity identity
    ok (to_string (new_sha1 name_space_url (job_payload identity)))

  abbrev pub run_id_of : Option Uuid → Result Text
  run_id_of none = err (message "parse job ID")
  run_id_of (some parsed) =
      if is_nil parsed
      then err (message "job ID must not be nil UUID")
      else ok (to_string (new_sha1 parsed run_name))

  unfoldable pub generate_run_id : Text → Result Text
  generate_run_id job_id = run_id_of (parse job_id)
