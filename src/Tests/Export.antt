-- ===== src/Tests/Export.antt =====
-- An export at concrete values, with the keys of the signed bundle. A document is printed as the name
-- of its schema, and the parser knows the two documents that are read.
use freebsd_laboratory.Base.{ℕ, true, List, [], ◌∷◌, Option, none, some, refl, if◌then◌else◌, ◌≡◌}
use freebsd_laboratory.Base.Text.{text, eq_text, eq_text_iff}
use freebsd_laboratory.Base.Result.{ok}
use freebsd_laboratory.Evidence.Json.{Json, bool, object, str, end, member, get}
use freebsd_laboratory.Evidence.Service.{LabService, EvidenceEvent}
use freebsd_laboratory.Bundle.{regular}
use freebsd_laboratory.Bundle.Verify.{verify_bundle, manifest_name, signature_name}
use freebsd_laboratory.Signing.{
  Crypto, signature_document, algorithm, schema_key, algorithm_key, digest_key, fingerprint_key,
  pem_key, key_id_key, signature_schema,
}
use freebsd_laboratory.Export.{
  SigningConfig, enabled, Laboratory, Surroundings, signing_config, manifest_document,
  self_recorded,
}
use freebsd_laboratory.Export.Steps.{
  environment_name, events_name, evidence_name, artifacts_document, report, export, bundle_of,
}
use freebsd_laboratory.Export.Signed.{exported_manifest, exported_signature}
use freebsd_laboratory.Export.Verifies.{verify_bundle-export}
use freebsd_laboratory.Tests.Signing.{number_crypto}

abbrev schema_of : Option Json → List ℕ
schema_of (some (str t)) = t
schema_of _ = []

abbrev printed : Json → List ℕ
printed (object d) = schema_of (get schema_key d)
printed _ = []

abbrev printing_crypto : Crypto ℕ ℕ
printing_crypto = record number_crypto { dumps = printed }

abbrev demo_around : Surroundings
demo_around = record {
  key_at = λ path. regular (7 ∷ []);
  name_of = λ path. path;
  system = text "FreeBSD";
  release = text "14.1";
  machine = text "amd64";
  writable = λ name. true;
}

abbrev demo_lab : Laboratory
demo_lab = record {
  spec = member (text "id") (str (text "lab")) (
      member (text "evidence")
        (object (
          member (text "signing")
            (object (
              member (text "enabled") (bool true)
                (member (text "private_key") (str (text "key.pem")) end)))
            end))
        end);
  lab_file = text "lab";
  session_id = text "session";
  session_dir = text "/evidence/session";
  started_at = text "9:00";
}

abbrev demo_event : EvidenceEvent
demo_event = record {
  sequence = 1;
  recorded_at = text "9:30";
  kind = text "design-validated";
  source = text "laboratory-server";
  payload_sha256 = [];
  payload = end;
}

abbrev demo_service : LabService
demo_service = record {
  max_events = 10;
  max_event_payload_bytes = 1024;
  events = demo_event ∷ [];
  log = text "event" ∷ [];
}

abbrev demo_config : SigningConfig
demo_config = enabled (regular (7 ∷ [])) (text "key.pem")

abbrev demo_manifest : Json
demo_manifest = object (
    exported_manifest printing_crypto demo_around demo_lab (text "10:00") (text "10:01")
      demo_service demo_config)

abbrev demo_signature : Json
demo_signature = object (
    exported_signature printing_crypto demo_around demo_lab (text "10:00") (text "10:01")
      demo_service demo_config 7 (text "key.pem"))

abbrev reading_crypto : Crypto ℕ ℕ
reading_crypto = record printing_crypto {
  loads = λ raw.
      if eq_text raw (printed demo_manifest) then some demo_manifest else some demo_signature;
}

verify_bundle-export_example :
    let e =
      export reading_crypto demo_around demo_lab
        (text "10:00")
        (text "10:01")
        demo_service
        (λ name. none) in
    (e.0 ≡ ok (report reading_crypto demo_around demo_lab (signature_name ∷ [])))
    × (verify_bundle reading_crypto (bundle_of e.1) (some (regular (7 ∷ [])))
        ≡ ok (record {
          artifacts = environment_name ∷ events_name ∷ evidence_name ∷ [];
          signature_verified = true;
          key_id = some (str (text "key.pem"));
          trusted_key_enforced = true;
        }))
unfolding get schema_key text signing_config manifest_document self_recorded signature_document
    algorithm_key algorithm key_id_key manifest_name digest_key pem_key artifacts_document
    fingerprint_key signature_schema
verify_bundle-export_example =
    verify_bundle-export reading_crypto demo_around demo_lab (text "10:00") (text "10:01")
      demo_service (λ name. none) 7 (7 ∷ []) (7 ∷ []) b'k' (text "ey.pem") (λ name. refl) refl
      (record {
        loads_private = refl;
        loads_public = refl;
        verifies = λ m. (eq_text_iff m m).1 refl;
        decodes = λ m. refl;
      })
      refl refl
