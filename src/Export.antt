-- ===== src/Export.antt =====
-- `_signing_config` and `export` of freebsd_laboratory/service.py: the bundle that a session writes.
-- The session directory is the service's own and holds regular files, so that a file is its bytes.
-- Documents stand in the order in which their keys are printed.
pub mod Steps
pub mod Signed
pub mod Verifies
use freebsd_laboratory.Base.{
  ℕ, Bool, true, false, List, [], ◌∷◌, ◌++◌, Option, none, some, not, if◌then◌else◌, is_nil, length,
}
use freebsd_laboratory.Base.Int.{pos}
use freebsd_laboratory.Base.Text.{Text, text, eq_text}
use freebsd_laboratory.Base.Result.{Result, ok, err, value_error, ◌>>=◌, ◌>>◌, raise_if}
use freebsd_laboratory.Evidence.Json.{
  Json, Items, Members, null, bool, int, str, array, object, nil, item, end, member, get,
}
use freebsd_laboratory.Evidence.Service.{EvidenceEvent, as_dict}
use freebsd_laboratory.Bundle
use freebsd_laboratory.Bundle.{Entry, missing, symbolic_link, regular}
use freebsd_laboratory.Signing.{algorithm}

pub data SigningConfig : Type 0 where
  disabled : SigningConfig
  enabled : Entry → Text → SigningConfig

-- The specification and the session of a service.
pub record Laboratory : Type 0 where
  pub spec : Members
  pub lab_file : List ℕ
  pub session_id : Text
  pub session_dir : Text
  pub started_at : Text

-- What stands at a path under the root and how the file there is called, and the platform.
pub record Surroundings : Type 0 where
  pub key_at : Text → Entry
  pub name_of : Text → Text
  pub system : Text
  pub release : Text
  pub machine : Text
  pub writable : Text → Bool

-- `runtime_identity`
unfoldable pub runtime_identity : Surroundings → Json
unfolding text
runtime_identity around = object (
    member (text "is_freebsd") (bool (eq_text around.system (text "FreeBSD"))) (
      member (text "machine") (str around.machine) (
        member (text "release") (str around.release)
          (member (text "system") (str around.system) end))))

is_supported : Option Json → Bool
is_supported none = true
is_supported (some (str t)) = eq_text t algorithm
is_supported (some _) = false

key_path : Option Json → Result Text
key_path (some (str (c ∷ path))) = ok (c ∷ path)
key_path _ = err (value_error "evidence.signing.private_key is required when signing is enabled")

key_file : Entry → Result Entry
key_file (regular pem) = ok (regular pem)
key_file _ = err (value_error "evidence.signing.private_key is unavailable")

key_name : Text → Option Json → Result Text
key_name [] none = err (value_error "evidence.signing.key_id must be a non-empty string")
key_name (c ∷ name) none = ok (c ∷ name)
key_name name (some (str (c ∷ id))) = ok (c ∷ id)
key_name name (some _) = err (value_error "evidence.signing.key_id must be a non-empty string")

module _ (around : Surroundings) where
  enabled_config : Members → Result SigningConfig
  unfolding is_supported key_path key_file key_name text
  enabled_config signing = do
    raise_if (not (is_supported (get (text "algorithm") signing)))
        (value_error "Only Ed25519 evidence signing is supported")
    path ← key_path (get (text "private_key") signing)
    entry ← key_file (around.key_at path)
    key_id ← key_name (around.name_of path) (get (text "key_id") signing)
    ok (enabled entry key_id)

  section_config : Option Json → Result SigningConfig
  unfolding enabled_config text
  section_config none = ok disabled
  section_config (some null) = ok disabled
  section_config (some (object signing)) = elim (get (text "enabled") signing) [
    | none ↦ ok disabled
    | some (bool false) ↦ ok disabled
    | some (bool true) ↦ enabled_config signing
    | some _ ↦ err (value_error "evidence.signing.enabled must be boolean")
  ]
  section_config (some _) = err (value_error "evidence.signing must be a mapping")

  evidence_config : Option Json → Result SigningConfig
  unfolding section_config text
  evidence_config (some (object evidence)) = section_config (get (text "signing") evidence)
  evidence_config _ = ok disabled

  -- `_signing_config`
  unfoldable pub signing_config : Members → Result SigningConfig
  unfolding evidence_config text
  signing_config spec = evidence_config (get (text "evidence") spec)

unfoldable pub events_of : List EvidenceEvent → Items
events_of [] = nil
events_of (e ∷ es) = item (as_dict e) (events_of es)

-- spec[key], and spec.get(key, {})
unfoldable pub or_null : Option Json → Json
or_null none = null
or_null (some v) = v

unfoldable pub or_object : Option Json → Json
or_object none = object end
or_object (some v) = v

unfoldable pub self_recorded : Json
unfolding text
self_recorded = str (text "self-recorded")

module _ (sha256 : List ℕ → Text) (around : Surroundings) (lab : Laboratory) where
  unfoldable pub evidence_document : Text → List EvidenceEvent → Members
  unfolding text
  evidence_document exported_at events = member (text "events") (array (events_of events)) (
      member (text "lab")
        (object (
          member (text "id") (or_null (get (text "id") lab.spec))
            (member (text "spec_sha256") (str (sha256 lab.lab_file)) end)))
        (member (text "runtime") (runtime_identity around) (
          member (text "schema") (str (text "softcloud.lab-evidence/v1")) (
            member (text "session")
              (object (
                member (text "attestation") self_recorded (
                  member (text "exported_at") (str exported_at) (
                    member (text "id") (str lab.session_id)
                      (member (text "started_at") (str lab.started_at) end)))))
              end))))

  unfoldable pub environment_document : Members
  unfolding text
  environment_document =
      member (text "declared_runtime") (or_object (get (text "runtime") lab.spec)) (
        member (text "executor") (or_object (get (text "executor") lab.spec)) (
          member (text "runtime") (runtime_identity around)
            (member (text "schema") (str (text "softcloud.lab-environment/v1")) end)))

  unfoldable pub artifact_metadata : List ℕ → Json
  artifact_metadata bytes = object (
      member Bundle.sha256_key (str (sha256 bytes))
        (member Bundle.size_key (int (pos (length bytes))) end))

  unfoldable pub signature_entry : SigningConfig → Json
  unfolding text
  signature_entry disabled = object (
      member (text "algorithm") null
        (member (text "enabled") (bool false) (member (text "key_id") null end)))
  signature_entry (enabled entry key_id) = object (
      member (text "algorithm") (str algorithm)
        (member (text "enabled") (bool true) (member (text "key_id") (str key_id) end)))

  unfoldable pub manifest_document : SigningConfig → Text → ℕ → Members → Members
  unfolding text
  manifest_document signing generated_at event_count artifacts =
      member (text "artifacts") (object artifacts) (
        member (text "attestation") self_recorded (
          member (text "event_count") (int (pos event_count)) (
            member (text "generated_at") (str generated_at) (
              member (text "lab_id") (or_null (get (text "id") lab.spec)) (
                member (text "schema") (str (text "softcloud.lab-evidence-manifest/v1")) (
                  member (text "session_id") (str lab.session_id)
                    (member (text "signature") (signature_entry signing) end)))))))
