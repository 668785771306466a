-- ===== src/Domain/Tests.antt =====
-- internal/domain/identity.go: the theorems on two identities, with a UUID that is the text it was made
-- from.
use variable_star_classifica.Prelude.{
  ◌≡◌, ◌≢◌, ◌↔◌, ◌⊎◌, refl, ◌++◌, [], some, Text, codes, eqb_text, trim_space, arith, pos,
}
use variable_star_classifica.Errors.{ok}
use variable_star_classifica.Domain.Identity.{
  JobIdentity, UuidLibrary, generate_job_id, job_payload, validate_job_identity,
  validate_identity_string, validate_execution_mode, execution_mode_production,
}
use variable_star_classifica.Domain.Identity.Encoding.{HasLengths, job_payload-injective}
use variable_star_classifica.Domain.Identity.Ids.{
  IsJobIdentity, generate_job_id-ok_iff, generate_job_id-collision,
}

abbrev text_uuid : UuidLibrary
text_uuid = record {
  Uuid = Text;
  name_space_url = codes "url";
  new_sha1 = λ space name. space ++ name;
  to_string = λ u. u;
  parse = λ t. some t;
  is_nil = λ u. eqb_text u [];
  parse-to_string = λ u. refl;
}

abbrev star : JobIdentity
star = record {
  object_id = codes "ZTF18";
  light_curve_revision = pos 4;
  model_bundle_version = codes "bundle-1";
  execution_mode = execution_mode_production;
}

abbrev star_id : Text
star_id = codes "url" ++ job_payload star

star_is_valid : validate_job_identity star ≡ ok tt
unfolding validate_job_identity validate_identity_string validate_execution_mode trim_space
star_is_valid = refl

star_gets_id : generate_job_id text_uuid star ≡ ok star_id
unfolding generate_job_id validate_job_identity validate_identity_string validate_execution_mode
    trim_space
star_gets_id = refl

star-HasLengths : HasLengths star
star-HasLengths = record { object_fits = omega arith; bundle_fits = omega arith }

job_payload-injective_example : star ≡ star
job_payload-injective_example =
    job_payload-injective star star star-HasLengths star-HasLengths (omega arith) (omega arith) refl

generate_job_id-ok_iff_example :
    ((j : Text) × (generate_job_id text_uuid star ≡ ok j)) ↔ IsJobIdentity star
generate_job_id-ok_iff_example = generate_job_id-ok_iff text_uuid star

generate_job_id-collision_example :
    (star ≡ star)
    ⊎ ((job_payload star ≢ job_payload star)
        × (text_uuid.new_sha1 text_uuid.name_space_url (job_payload star)
            ≡ text_uuid.new_sha1 text_uuid.name_space_url (job_payload star)))
generate_job_id-collision_example =
    generate_job_id-collision text_uuid star star star_id (omega arith) (omega arith) star_gets_id
      star_gets_id
