-- ===== src/Domain/Identity/Encoding.antt =====
-- internal/domain/identity.go: two identities have one encoding only if they are the same.
use variable_star_classifica.Prelude.{
  sym, ◌∙◌, append-injective, ℕ, ◌^◌, ◌<◌, ◌≡◌, ◌++◌, [], ◌∷◌, none, Text, length, append_assoc,
  arith, String,
}
use variable_star_classifica.Errors.{ok}
use variable_star_classifica.Domain.Words.{
  put_uint32, put_uint64, uint64_of, IsInt64, put_uint32-injective, put_uint64-injective,
  uint64_of-lt, uint64_of-injective,
}
use variable_star_classifica.Domain.Identity.{
  JobIdentity, job_name_prefix, validate_identity_string, validate_job_identity, job_payload,
}

validate_identity_string-length :
    (field : String) (value : Text)
    → validate_identity_string field value ≡ none
    → length value < 2 ^ 32
unfolding validate_identity_string
validate_identity_string-length field value h = ground arith

pub record HasLengths (i : JobIdentity) : Type 0 where
  pub object_fits : length i.object_id < 2 ^ 32
  pub bundle_fits : length i.model_bundle_version < 2 ^ 32

pub validate_job_identity-HasLengths :
    (i : JobIdentity) → validate_job_identity i ≡ ok tt → HasLengths i
unfolding validate_job_identity
validate_job_identity-HasLengths i h = ground arith

-- The payload bracketed to the right: each part before all that follows it.
payload_parts :
    (i : JobIdentity)
    → job_payload i
      ≡ put_uint32 (length job_name_prefix)
        ++ (job_name_prefix
            ++ (put_uint32 (length i.object_id)
                ++ (i.object_id
                    ++ (put_uint64 (uint64_of i.light_curve_revision)
                        ++ (put_uint32 (length i.model_bundle_version)
                            ++ (i.model_bundle_version ++ (i.execution_mode ∷ [])))))))
unfolding job_payload
payload_parts i = simp append_assoc

append_nil-injective : (a b : ℕ) → a ∷ [] ≡ b ∷ [] → a ≡ b
append_nil-injective a b e = cc

-- A length-prefixed string before any bytes can be read back, and so can the bytes behind it.
prefixed-injective :
    (v w s t : Text)
    → length v < 2 ^ 32
    → length w < 2 ^ 32
    → put_uint32 (length v) ++ (v ++ s) ≡ put_uint32 (length w) ++ (w ++ t)
    → (v ≡ w) × (s ≡ t)
prefixed-injective v w s t hv hw e =
    let (same_length, rest) =
      put_uint32-injective (length v) (length w) (v ++ s) (w ++ t) hv hw e in
    append-injective v w s t same_length rest

-- The payload of GenerateJobID determines the identity, if its strings fit their length prefix and
-- its revision is an int64.
pub job_payload-injective :
    (a b : JobIdentity)
    → HasLengths a
    → HasLengths b
    → IsInt64 a.light_curve_revision
    → IsInt64 b.light_curve_revision
    → job_payload a ≡ job_payload b
    → a ≡ b
job_payload-injective a b fa fb ra rb e =
    let (_, e1) =
      prefixed-injective job_name_prefix job_name_prefix _ _ (omega arith) (omega arith)
        (sym (payload_parts a) ∙ e ∙ payload_parts b) in
    let (object, e2) =
      prefixed-injective a.object_id b.object_id _ _ fa.object_fits fb.object_fits e1 in
    let (revision, e3) =
      put_uint64-injective (uint64_of a.light_curve_revision) (uint64_of b.light_curve_revision) _ _
        (uint64_of-lt _) (uint64_of-lt _) e2 in
    let (bundle, e4) =
      prefixed-injective a.model_bundle_version b.model_bundle_version _ _ fa.bundle_fits
        fb.bundle_fits e3 in
    λ i. record {
      object_id = object i;
      light_curve_revision =
          uint64_of-injective a.light_curve_revision b.light_curve_revision ra rb revision i;
      model_bundle_version = bundle i;
      execution_mode = append_nil-injective a.execution_mode b.execution_mode e4 i;
    }
