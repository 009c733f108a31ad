-- ===== src/Export/Verifies.antt =====
-- That the bundle of an export with a signature passes verification with the key's public half.
use freebsd_laboratory.Base.{ℕ, true, false, List, [], ◌∷◌, some, ◌≡◌, refl, ap, length}
use freebsd_laboratory.Base.Int.{pos, eq_ℤ_iff}
use freebsd_laboratory.Base.Text.{Text, text, eq_text, eq_text_iff}
use freebsd_laboratory.Base.Result.{ok}
use freebsd_laboratory.Evidence.Json.{object, get, str}
use freebsd_laboratory.Evidence.Service.{LabService}
use freebsd_laboratory.Bundle
use freebsd_laboratory.Bundle.{
  Bundle, Entry, Readers, regular, is_bad_name, wrong_size, check_artifact, verify_artifacts,
  verify_manifest, manifest_of, checked_schema, artifacts_of,
}
use freebsd_laboratory.Bundle.Verify.{
  readers, sorted, insert_text, lt_text, manifest_name, signature_name, verify_bundle, signature_of,
  is_given, key_id_of,
}
use freebsd_laboratory.Signing.{
  Crypto, ed25519, signature_document, regular_file, load_public_key, loaded_key, object_of,
  text_of, given, is_text, chosen_key, check_signature, verify_manifest_signature, schema_key,
  algorithm_key, digest_key, fingerprint_key, pem_key, signature_key, key_id_key, signature_schema,
  algorithm,
}
use freebsd_laboratory.Export.{
  SigningConfig, enabled, Laboratory, Surroundings, signing_config, artifact_metadata,
  manifest_document,
}
use freebsd_laboratory.Export.Steps.{
  Files, written, evidence_name, environment_name, events_name, sums_name, joined,
  artifacts_document, report, export, bundle_of, entry_of,
}
use freebsd_laboratory.Export.Signed.{
  evidence_bytes, environment_bytes, exported_manifest, manifest_bytes, exported_signature,
  signed_files, export_signed,
}

eq_text_refl : (t : Text) → eq_text t t ≡ true
eq_text_refl t = (eq_text_iff t t).1 refl

-- A private key and the PEM forms of the pair: what the cryptography package and base64 promise of
-- them.
pub record IsKeyPair {Private Public : Type 0} (crypto : Crypto Private Public) (key : Private)
    (private_pem public_pem : List ℕ) : Type 0 where
  pub loads_private : crypto.load_private private_pem ≡ ed25519 key
  pub loads_public : crypto.load_public public_pem ≡ ed25519 (crypto.public_key key)
  pub verifies : (m : List ℕ) → crypto.verify (crypto.public_key key) (crypto.sign key m) m ≡ true
  pub decodes :
      (m : List ℕ)
      → crypto.b64decode (crypto.b64encode (crypto.sign key m)) ≡ some (crypto.sign key m)

sorted_names :
    sorted (environment_name ∷ events_name ∷ evidence_name ∷ [])
    ≡ environment_name ∷ events_name ∷ evidence_name ∷ []
unfolding sorted insert_text lt_text environment_name events_name evidence_name text
sorted_names = refl

module _ (read : Readers) (bundle : Bundle) (around : Surroundings) (lab : Laboratory) where
  check_artifact-artifact_metadata :
      (name : Text) (bytes : List ℕ)
      → is_bad_name name ≡ false
      → bundle.entry name ≡ regular bytes
      → check_artifact read bundle name (artifact_metadata read.sha256 around lab bytes) ≡ ok tt
  unfolding check_artifact artifact_metadata wrong_size get Bundle.sha256_key Bundle.size_key text
  check_artifact-artifact_metadata name bytes plain there =
      rw
        (
          plain,
          there,
          eq_text_refl (read.sha256 bytes),
          (eq_ℤ_iff (pos (length bytes)) (pos (length bytes))).1 refl,
        )
        refl

module _ {Private Public : Type 0} (crypto : Crypto Private Public) (around : Surroundings)
    (lab : Laboratory) where
  verify_artifacts-artifacts_document :
      (bundle : Bundle) (evidence environment events : List ℕ)
      → bundle.entry evidence_name ≡ regular evidence
      → bundle.entry environment_name ≡ regular environment
      → bundle.entry events_name ≡ regular events
      → verify_artifacts
          (readers crypto)
          bundle
          (artifacts_document crypto around lab evidence environment events)
        ≡ ok (environment_name ∷ events_name ∷ evidence_name ∷ [])
  unfolding verify_artifacts artifacts_document is_bad_name evidence_name environment_name
      events_name text
  verify_artifacts-artifacts_document bundle evidence environment events a b c =
      rw
        (
          check_artifact-artifact_metadata (readers crypto) bundle around lab environment_name
              environment refl b,
          check_artifact-artifact_metadata (readers crypto) bundle around lab events_name events
              refl c,
          check_artifact-artifact_metadata (readers crypto) bundle around lab evidence_name evidence
              refl a,
        )
        refl

  -- The checks of a signature document against the manifest that was signed.
  verify_manifest_signature-signature_document :
      (key : Private) (key_id : Text) (manifest signature private_pem public_pem : List ℕ)
      → crypto.loads signature
        ≡ some (object (signature_document crypto key key_id manifest_name manifest))
      → IsKeyPair crypto key private_pem public_pem
      → verify_manifest_signature crypto
          (regular manifest)
          (regular signature)
          (some (regular public_pem))
        ≡ ok (signature_document crypto key key_id manifest_name manifest)
  unfolding verify_manifest_signature regular_file object_of check_signature is_text get
      signature_document schema_key algorithm_key digest_key fingerprint_key pem_key signature_key
      key_id_key signature_schema algorithm text chosen_key load_public_key loaded_key text_of given
  verify_manifest_signature-signature_document key key_id manifest signature private_pem public_pem
        parsed pair =
      rw
        (
          parsed,
          eq_text_refl (crypto.sha256 manifest),
          pair.loads_public,
          eq_text_refl (crypto.sha256 (crypto.public_pem (crypto.public_key key))),
          pair.decodes manifest,
          pair.verifies manifest,
        )
        refl

  verify_manifest-manifest_document :
      (files : Files) (signing : SigningConfig) (now : Text) (count : ℕ)
      (manifest evidence environment events : List ℕ)
      → files manifest_name ≡ some manifest
      → crypto.loads manifest
        ≡ some (
            object (
              manifest_document crypto.sha256 around lab signing now count
                (artifacts_document crypto around lab evidence environment events)))
      → files evidence_name ≡ some evidence
      → files environment_name ≡ some environment
      → files events_name ≡ some events
      → verify_manifest (readers crypto) (bundle_of files)
        ≡ ok (
          artifacts_document crypto around lab evidence environment events,
          environment_name ∷ events_name ∷ evidence_name ∷ [],
        )
  unfolding verify_manifest manifest_of checked_schema artifacts_of manifest_document get bundle_of
      entry_of manifest_name artifacts_document text
  verify_manifest-manifest_document files signing now count manifest evidence environment events
        there parsed a b c =
      rw
        (
          there,
          parsed,
          verify_artifacts-artifacts_document (bundle_of files) evidence environment events
              (ap entry_of a) (ap entry_of b) (ap entry_of c),
        )
        refl

  -- The five files of a signed export that the verification reads.
  record IsExported (files : Files) (evidence environment events manifest signature : List ℕ)
      : Type 0 where
    evidence_there : files evidence_name ≡ some evidence
    environment_there : files environment_name ≡ some environment
    events_there : files events_name ≡ some events
    manifest_there : files manifest_name ≡ some manifest
    signature_there : files signature_name ≡ some signature

  signed_files-IsExported :
      (exported_at generated_at : Text) (s : LabService) (signing : SigningConfig) (key : Private)
      (key_id : Text) (others files : Files)
      → ((name : Text)
          → eq_text name sums_name ≡ false
          → files name
            ≡ signed_files crypto around lab exported_at generated_at s signing key key_id others
                name)
      → IsExported files
          (evidence_bytes crypto around lab exported_at generated_at s)
          (environment_bytes crypto around lab exported_at generated_at s)
          (joined s.log)
          (manifest_bytes crypto around lab exported_at generated_at s signing)
          (crypto.dumps (
            object
              (exported_signature crypto around lab exported_at generated_at s signing key key_id)))
  unfolding manifest_name sums_name written signature_name evidence_name environment_name
      events_name text
  signed_files-IsExported exported_at generated_at s signing key key_id others files same = record {
    evidence_there = same evidence_name refl;
    environment_there = same environment_name refl;
    events_there = same events_name refl;
    manifest_there = same manifest_name refl;
    signature_there = same signature_name refl;
  }

  get-signature_document :
      (key : Private) (key_id : Text) (manifest : List ℕ)
      → get key_id_key (signature_document crypto key key_id manifest_name manifest)
        ≡ some (str key_id)
  unfolding get signature_document key_id_key algorithm_key text
  get-signature_document key key_id manifest = refl

  -- An export under a configuration that enables signing succeeds, where every file can be written,
  -- and what it leaves passes verification with the public key of the configured private key, whose
  -- id is reported. The decoder finds the manifest and the signature document in what the encoder
  -- prints of them.
  pub verify_bundle-export :
      (exported_at generated_at : Text) (s : LabService) (others : Files) (key : Private)
      (pem public_pem : List ℕ) (c : ℕ) (id : Text)
      → let signing : SigningConfig = enabled (regular pem) (c ∷ id) in
        let manifest = exported_manifest crypto around lab exported_at generated_at s signing in
        let signature =
          exported_signature crypto around lab exported_at generated_at s signing key (c ∷ id) in
        let e = export crypto around lab exported_at generated_at s others in
        ((name : Text) → around.writable name ≡ true)
        → signing_config around lab.spec ≡ ok signing
        → IsKeyPair crypto key pem public_pem
        → crypto.loads (crypto.dumps (object manifest)) ≡ some (object manifest)
        → crypto.loads (crypto.dumps (object signature)) ≡ some (object signature)
        → (e.0 ≡ ok (report crypto around lab (signature_name ∷ [])))
          × (verify_bundle crypto (bundle_of e.1) (some (regular public_pem))
              ≡ ok (record {
                artifacts = environment_name ∷ events_name ∷ evidence_name ∷ [];
                signature_verified = true;
                key_id = some (str (c ∷ id));
                trusted_key_enforced = true;
              }))
  unfolding verify_bundle bundle_of signature_of entry_of is_given key_id_of
  verify_bundle-export exported_at generated_at s others key pem public_pem c id writable config
        pair readable signed =
      let run =
        export_signed crypto around lab exported_at generated_at s key pem c id others writable
          config pair.loads_private in
      let files = (export crypto around lab exported_at generated_at s others).1 in
      let there =
        signed_files-IsExported exported_at generated_at s (enabled (regular pem) (c ∷ id)) key
          (c ∷ id) others files run.1 in
      (
        run.0,
        rw
            (
              verify_manifest-manifest_document files (enabled (regular pem) (c ∷ id)) generated_at
                  (length s.events) _ _ _ _ there.manifest_there readable there.evidence_there
                  there.environment_there there.events_there,
              there.manifest_there,
              there.signature_there,
              verify_manifest_signature-signature_document key (c ∷ id) _ _ pem public_pem signed
                  pair,
              get-signature_document key (c ∷ id) (
                  manifest_bytes crypto around lab exported_at generated_at s
                    (enabled (regular pem) (c ∷ id))),
              sorted_names,
            )
            refl,
      )
