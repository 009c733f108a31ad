-- ===== src/Export/Steps.antt =====
-- `export`: the files that are written, in the order of the source.
use freebsd_laboratory.Base.{
  ℕ, Bool, true, false, List, [], ◌∷◌, ◌++◌, Option, none, some, if◌then◌else◌, length,
}
use freebsd_laboratory.Base.Text.{Text, text, eq_text}
use freebsd_laboratory.Base.Result.{ok, err, os_error}
use freebsd_laboratory.Host.{Sys, pure, ◌>>=◌, ◌>>◌}
use freebsd_laboratory.Evidence.Json.{Members, object, end, member}
use freebsd_laboratory.Evidence.Service.{LabService}
use freebsd_laboratory.Bundle.{Bundle, Entry, missing, regular}
use freebsd_laboratory.Bundle.Verify.{sorted, manifest_name, signature_name}
use freebsd_laboratory.Signing.{Crypto, sign_manifest, given}
use freebsd_laboratory.Export.{
  SigningConfig, disabled, enabled, Laboratory, Surroundings, signing_config, evidence_document,
  environment_document, artifact_metadata, manifest_document,
}

-- The files of the session directory.
abbrev pub Files : Type 0
Files = Text → Option (List ℕ)

unfoldable pub written : Text → List ℕ → Files → Files
written name bytes files n = if eq_text n name then some bytes else files n

unfoldable pub entry_of : Option (List ℕ) → Entry
entry_of none = missing
entry_of (some bytes) = regular bytes

-- The directory, as one that verifies it finds it.
unfoldable pub bundle_of : Files → Bundle
bundle_of files = record { is_symlink = false; is_dir = true; entry = λ n. entry_of (files n) }

unfoldable pub evidence_name : Text
unfolding text
evidence_name = text "evidence.json"

unfoldable pub environment_name : Text
unfolding text
environment_name = text "environment.json"

unfoldable pub events_name : Text
unfolding text
events_name = text "events.jsonl"

unfoldable pub sums_name : Text
unfolding text
sums_name = text "SHA256SUMS"

-- The lines of the log in one file.
unfoldable pub joined : List (List ℕ) → List ℕ
joined [] = []
joined (line ∷ lines) = line ++ joined lines

pub record Report : Type 0 where
  pub session_id : Text
  pub path : Text
  pub files : List Text
  pub signed : Bool

unfoldable pub load : Text → Sys Files (List ℕ)
load name files = (given os_error (files name), files)

unfoldable pub is_signed : List Text → Bool
is_signed [] = false
is_signed (name ∷ names) = true

module _ {Private Public : Type 0} (crypto : Crypto Private Public) (around : Surroundings)
    (lab : Laboratory) where
  -- Writing a file, after which its mode is set.
  unfoldable pub save : Text → List ℕ → Sys Files (Unit {0})
  save name bytes files =
      if around.writable name then (ok tt, written name bytes files) else (err os_error, files)

  unfoldable pub artifacts_document : List ℕ → List ℕ → List ℕ → Members
  artifacts_document evidence environment events =
      member environment_name (artifact_metadata crypto.sha256 around lab environment) (
        member events_name (artifact_metadata crypto.sha256 around lab events)
          (member evidence_name (artifact_metadata crypto.sha256 around lab evidence) end))

  -- The signature file where signing is enabled, and its name.
  unfoldable pub sign : SigningConfig → Sys Files (List Text)
  sign disabled = pure []
  sign (enabled key key_id) = do
    manifest ← load manifest_name
    signature ← (λ files. (sign_manifest crypto manifest_name (regular manifest) key key_id, files))
    save signature_name signature
    pure (signature_name ∷ [])

  -- "{digest}  {name}\n" for each name; a digest and the names are ASCII.
  unfoldable pub sum_lines : List Text → Sys Files (List ℕ)
  sum_lines [] = pure []
  sum_lines (name ∷ names) = do
    bytes ← load name
    rest ← sum_lines names
    pure (crypto.sha256 bytes ++ b' ' ∷ b' ' ∷ name ++ 10 ∷ rest)

  unfoldable pub report : List Text → Report
  report signature = record {
    session_id = lab.session_id;
    path = lab.session_dir;
    files =
        (evidence_name ∷ environment_name ∷ events_name ∷ manifest_name ∷ signature)
        ++ sums_name ∷ [];
    signed = is_signed signature;
  }

  -- The steps behind the reading of the signing configuration.
  unfoldable pub export_with : SigningConfig → Text → Text → LabService → Sys Files Report
  export_with signing exported_at generated_at s = do
    save evidence_name
        (crypto.dumps (object (evidence_document crypto.sha256 around lab exported_at s.events)))
    save environment_name (crypto.dumps (object (environment_document crypto.sha256 around lab)))
    evidence ← load evidence_name
    environment ← load environment_name
    events ← load events_name
    save manifest_name (
        crypto.dumps (
          object (
            manifest_document crypto.sha256 around lab signing generated_at (length s.events)
              (artifacts_document evidence environment events))))
    signature ← sign signing
    sums ←
        sum_lines
          (sorted (evidence_name ∷ environment_name ∷ events_name ∷ manifest_name ∷ signature))
    save sums_name sums
    pure (report signature)

  -- `export`, in a directory with the log of the service and what else is there
  unfoldable pub export : Text → Text → LabService → Sys Files Report
  export exported_at generated_at s others =
      let signing = signing_config around lab.spec in
      ((λ files. (signing, files)) >>= λ config. export_with config exported_at generated_at s)
        (written events_name (joined s.log) others)
