-- ===== src/Domain/Identity/Ids.antt =====
-- internal/domain/identity.go: which identities get an ID, and when two of them get the same one.
use variable_star_classifica.Prelude.{
  ◌≤◌, ◌≡◌, ◌≢◌, sym, ◌∙◌, ◌⊎◌, inl, inr, ◌↔◌, false, [], none, Text, Text-discrete, eqb_text_iff,
  contains_nul, trim_space, length, arith, pos, ◌<ℤ◌, String,
}
use variable_star_classifica.Errors.{ok}
use variable_star_classifica.Domain.Words.{IsInt64}
use variable_star_classifica.Domain.Identity.{
  JobIdentity, execution_mode_production, execution_mode_shadow, execution_mode_reprocess, run_name,
  validate_identity_string, validate_job_identity, job_payload, UuidLibrary, generate_job_id,
  generate_run_id, max_uint32,
}
use variable_star_classifica.Domain.Identity.Encoding.{
  validate_job_identity-HasLengths, job_payload-injective,
}

-- What an identity string must be, said without the code's tests.
pub record IsIdentityText (s : Text) : Type 0 where
  pub not_empty : s ≢ []
  pub trimmed : trim_space s ≡ s
  pub without_nul : contains_nul s ≡ false
  pub fits : length s ≤ max_uint32

pub record IsJobIdentity (i : JobIdentity) : Type 0 where
  pub object : IsIdentityText i.object_id
  pub revision : pos 0 <ℤ i.light_curve_revision
  pub bundle : IsIdentityText i.model_bundle_version
  pub mode :
      (i.execution_mode ≡ execution_mode_production)
      ⊎ (i.execution_mode ≡ execution_mode_shadow)
      ⊎ (i.execution_mode ≡ execution_mode_reprocess)

validate_identity_string_iff :
    (field : String) (s : Text) → (validate_identity_string field s ≡ none) ↔ IsIdentityText s
unfolding validate_identity_string
validate_identity_string_iff field s = (
  λ h. ground (arith, eqb_text_iff s [], eqb_text_iff (trim_space s) s),
  λ h. ground (arith, eqb_text_iff s [], eqb_text_iff (trim_space s) s),
)

validate_job_identity_iff : (i : JobIdentity) → (validate_job_identity i ≡ ok tt) ↔ IsJobIdentity i
unfolding validate_job_identity
validate_job_identity_iff i = (
  λ h. ground (
    arith,
    eqb_text_iff i.object_id [],
    eqb_text_iff (trim_space i.object_id) i.object_id,
    eqb_text_iff i.model_bundle_version [],
    eqb_text_iff (trim_space i.model_bundle_version) i.model_bundle_version,
  ),
  λ h. ground (
    arith,
    eqb_text_iff i.object_id [],
    eqb_text_iff (trim_space i.object_id) i.object_id,
    eqb_text_iff i.model_bundle_version [],
    eqb_text_iff (trim_space i.model_bundle_version) i.model_bundle_version,
  ),
)

module _ (lib : UuidLibrary) where
  open lib use {name_space_url, new_sha1, to_string, parse, is_nil, parse-to_string}

  pub generate_job_id-inversion :
      (i : JobIdentity) {j : Text}
      → generate_job_id lib i ≡ ok j
      → (validate_job_identity i ≡ ok tt)
        × (j ≡ to_string (new_sha1 name_space_url (job_payload i)))
  unfolding generate_job_id
  generate_job_id-inversion i h = ground arith

  -- GenerateJobID returns an ID exactly for the identities whose strings are non-empty, trimmed, free
  -- of NUL and no longer than a uint32 can say, with a positive revision and a named mode.
  pub generate_job_id-ok_iff :
      (i : JobIdentity) → ((j : Text) × (generate_job_id lib i ≡ ok j)) ↔ IsJobIdentity i
  unfolding generate_job_id
  generate_job_id-ok_iff i = (
    λ r. (validate_job_identity_iff i).0 (generate_job_id-inversion i r.1).0,
    λ h. (
      to_string (new_sha1 name_space_url (job_payload i)),
      rw ((validate_job_identity_iff i).1 h),
    ),
  )

  to_string-injective : {u v : lib.Uuid} → to_string u ≡ to_string v → u ≡ v
  to_string-injective {u} {v} e = cc (parse-to_string u, parse-to_string v)

  -- Two identities with int64 revisions that get the same job ID are the same identity, or their
  -- payloads are different byte strings with one SHA-1 UUID.
  pub generate_job_id-collision :
      (a b : JobIdentity) (j : Text)
      → IsInt64 a.light_curve_revision
      → IsInt64 b.light_curve_revision
      → generate_job_id lib a ≡ ok j
      → generate_job_id lib b ≡ ok j
      → (a ≡ b)
        ⊎ ((job_payload a ≢ job_payload b)
            × (new_sha1 name_space_url (job_payload a) ≡ new_sha1 name_space_url (job_payload b)))
  generate_job_id-collision a b j ra rb ha hb =
      let (va, ea) = generate_job_id-inversion a ha in
      let (vb, eb) = generate_job_id-inversion b hb in
      elim (Text-discrete (job_payload a) (job_payload b)) [
        | yes same ↦ inl (
            job_payload-injective a b (validate_job_identity-HasLengths a va)
              (validate_job_identity-HasLengths b vb) ra rb same)
        | no differ ↦ inr (differ, to_string-injective (sym ea ∙ eb))
      ]

  -- GenerateRunID accepts every ID that GenerateJobID returned for a payload whose UUID is not nil,
  -- and hashes the run name under that UUID.
  pub generate_run_id-generate_job_id :
      (i : JobIdentity) (j : Text)
      → generate_job_id lib i ≡ ok j
      → is_nil (new_sha1 name_space_url (job_payload i)) ≡ false
      → generate_run_id lib j
        ≡ ok (to_string (new_sha1 (new_sha1 name_space_url (job_payload i)) run_name))
  unfolding generate_run_id
  generate_run_id-generate_job_id i j h live =
      let (_, e) = generate_job_id-inversion i h in rw (e, parse-to_string, live)
