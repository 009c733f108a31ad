-- ===== src/Export/Signed.antt =====
-- What an export with a signature leaves in the session directory.
use freebsd_laboratory.Base.{ℕ, true, false, List, [], ◌∷◌, ◌≡◌, refl, length}
use freebsd_laboratory.Base.Text.{Text, text, eq_text}
use freebsd_laboratory.Base.Result.{ok}
use freebsd_laboratory.Evidence.Json.{Members, object}
use freebsd_laboratory.Evidence.Service.{LabService}
use freebsd_laboratory.Bundle.{regular}
use freebsd_laboratory.Bundle.Verify.{sorted, insert_text, lt_text, manifest_name, signature_name}
use freebsd_laboratory.Signing.{
  Crypto, sign_manifest, given, ed25519, signature_document, regular_file, load_private_key,
  loaded_key,
}
use freebsd_laboratory.Export.{
  SigningConfig, enabled, Laboratory, Surroundings, signing_config, evidence_document,
  environment_document, manifest_document,
}
use freebsd_laboratory.Export.Steps.{
  Files, written, evidence_name, environment_name, events_name, sums_name, joined, load, save,
  artifacts_document, sign, sum_lines, report, export_with, export,
}

module _ {Private Public : Type 0} (crypto : Crypto Private Public) (around : Surroundings)
    (lab : Laboratory) (exported_at generated_at : Text) (s : LabService) where
  abbrev pub evidence_bytes : List ℕ
  evidence_bytes =
      crypto.dumps (object (evidence_document crypto.sha256 around lab exported_at s.events))

  abbrev pub environment_bytes : List ℕ
  environment_bytes = crypto.dumps (object (environment_document crypto.sha256 around lab))

  abbrev pub exported_artifacts : Members
  exported_artifacts =
      artifacts_document crypto around lab evidence_bytes environment_bytes (joined s.log)

  abbrev pub exported_manifest : SigningConfig → Members
  exported_manifest signing =
      manifest_document crypto.sha256 around lab signing generated_at (length s.events)
        exported_artifacts

  abbrev pub manifest_bytes : SigningConfig → List ℕ
  manifest_bytes signing = crypto.dumps (object (exported_manifest signing))

  abbrev pub exported_signature : SigningConfig → Private → Text → Members
  exported_signature signing key key_id =
      signature_document crypto key key_id manifest_name (manifest_bytes signing)

  abbrev pub signed_files : SigningConfig → Private → Text → Files → Files
  signed_files signing key key_id others =
      written signature_name (crypto.dumps (object (exported_signature signing key key_id))) (
        written manifest_name (manifest_bytes signing) (
          written environment_name environment_bytes
            (written evidence_name evidence_bytes (written events_name (joined s.log) others))))

  pub export_signed :
      (key : Private) (pem : List ℕ) (c : ℕ) (id : Text) (others : Files)
      → ((name : Text) → around.writable name ≡ true)
      → signing_config around lab.spec ≡ ok (enabled (regular pem) (c ∷ id))
      → crypto.load_private pem ≡ ed25519 key
      → let e = export crypto around lab exported_at generated_at s others in
        (e.0 ≡ ok (report crypto around lab (signature_name ∷ [])))
        × ((name : Text)
            → eq_text name sums_name ≡ false
            → e.1 name ≡ signed_files (enabled (regular pem) (c ∷ id)) key (c ∷ id) others name)
  unfolding export export_with save load given sign sign_manifest regular_file load_private_key
      loaded_key written evidence_name environment_name events_name sums_name manifest_name
      signature_name text sum_lines sorted insert_text lt_text
  export_signed key pem c id others writable config loads =
      rw
        (
          config,
          writable evidence_name,
          writable environment_name,
          writable manifest_name,
          loads,
          writable signature_name,
          writable sums_name,
        )
        (refl, λ name other. rw other refl)
