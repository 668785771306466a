-- ===== src/Application/Fixtures/Libraries.antt =====
-- internal/application: a UUID library of three UUIDs and a codec that knows one message, for the tests.
use native.Mathlib.Decide.{ℕ_discrete}
use mathlib.Core.Logic.{ite}
use variable_star_classifica.Prelude.{
  ◌≡◌, refl, false, if◌then◌else◌, [], Option, none, some, Text, codes, eqb_text, eqb_text_iff, ℤ,
  arith, IsToken,
}
use variable_star_classifica.Errors.{message, Result, ok, err}
use variable_star_classifica.Application.Proto.{ClassificationCommand, ClassificationResult, Codec}
use variable_star_classifica.Domain.Identity.{UuidLibrary}

-- Three UUIDs: the one of the job, the one of the name space and the run, and an earlier run's.
pub data KnownUuid : Type 0 where
  job_uuid run_uuid earlier_uuid : KnownUuid

abbrev pub uuid_text : KnownUuid → Text
uuid_text job_uuid = codes "job-1"
uuid_text run_uuid = codes "run-1"
uuid_text earlier_uuid = codes "run-0"

abbrev pub hash_of : KnownUuid → KnownUuid
hash_of run_uuid = job_uuid
hash_of _ = run_uuid

abbrev pub parse_known : Text → Option KnownUuid
parse_known t =
    if eqb_text t (codes "run-1")
    then some run_uuid
    else if eqb_text t (codes "job-1")
    then some job_uuid
    else if eqb_text t (codes "run-0")
    then some earlier_uuid
    else none

pub parse_known-uuid_text : (u : KnownUuid) → parse_known (uuid_text u) ≡ some u
parse_known-uuid_text job_uuid = refl
parse_known-uuid_text run_uuid = refl
parse_known-uuid_text earlier_uuid = refl

abbrev pub known_uuids : UuidLibrary
known_uuids = record {
  Uuid = KnownUuid;
  name_space_url = run_uuid;
  new_sha1 = λ space name. hash_of space;
  to_string = uuid_text;
  parse = parse_known;
  is_nil = λ u. false;
  parse-to_string = parse_known-uuid_text;
}

pub known_uuids-tokens : (u : KnownUuid) → IsToken (uuid_text u)
known_uuids-tokens job_uuid = record { not_empty = λ e. absurd (cc e); visible = ground arith }
known_uuids-tokens run_uuid = record { not_empty = λ e. absurd (cc e); visible = ground arith }
known_uuids-tokens earlier_uuid = record { not_empty = λ e. absurd (cc e); visible = ground arith }

pub Command-discrete : Discrete (ClassificationCommand ℤ)
Command-discrete = hlevel (ℕ_discrete)

pub Result-discrete : Discrete (ClassificationResult ℤ)
Result-discrete = hlevel (ℕ_discrete)

-- A codec that knows one message.
module _ {M : Type 0} (same : Discrete M) (empty known : M) (bytes : Text)
    (not_empty : eqb_text [] bytes ≡ false) where
  abbrev pub marshal_known : M → Result Text
  marshal_known m = ite (same known m) (ok bytes) (err (message "unknown message"))

  abbrev pub unmarshal_known : Text → Result M
  unmarshal_known t = if eqb_text t bytes then ok known else ok empty

  pub unmarshal_known-marshal_known :
      (m : M) (t : Text) → marshal_known m ≡ ok t → unmarshal_known t ≡ ok m
  unmarshal_known-marshal_known m t =
      elim (same known m)
        as (λ d.
          ite d (ok bytes) (err (message "unknown message")) ≡ ok t → unmarshal_known t ≡ ok m) [
            | yes e ↦ λ h. rw (ok_text h, (eqb_text_iff bytes bytes).1 refl, e)
            | no differ ↦ λ h. absurd (cc h)
          ]
    where
      ok_text : ◌≡◌ {A = Result Text} (ok bytes) (ok t) → t ≡ bytes
      ok_text h = cc h

  pub marshal_known-known : marshal_known known ≡ ok bytes
  marshal_known-known =
      elim (same known known)
        as (λ d. ite d (ok bytes) (err (message "unknown message")) ≡ ok bytes) [
          | yes e ↦ refl
          | no differ ↦ absurd (differ refl)
        ]

  abbrev pub codec : Codec M empty
  codec = record {
    marshal = marshal_known;
    unmarshal = unmarshal_known;
    unmarshal-marshal = unmarshal_known-marshal_known;
    unmarshal_nothing = rw not_empty refl;
  }
