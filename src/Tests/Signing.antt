-- ===== src/Tests/Signing.antt =====
-- A signed bundle with one artifact. Keys are numbers, their PEM form is the number alone, and a
-- signature is the key in front of the text.
use freebsd_laboratory.Base.{ℕ, true, false, List, [], ◌∷◌, Option, none, some, refl, if◌then◌else◌}
use freebsd_laboratory.Base.Int.{pos}
use freebsd_laboratory.Base.Text.{Text, text, eq_text}
use freebsd_laboratory.Evidence.Json.{Json, object, str, int, end, member, get}
use freebsd_laboratory.Bundle
use freebsd_laboratory.Bundle.{
  Bundle, Entry, regular, missing, verify_manifest, manifest_of, checked_schema, artifacts_of,
  verify_artifacts, check_artifact, is_bad_name, wrong_size,
}
use freebsd_laboratory.Bundle.Verify.{
  verify_bundle, signature_of, sorted, insert_text, signature_name, manifest_name, is_given,
  key_id_of,
}
use freebsd_laboratory.Bundle.Verify.Trusted.{IsTrusted, verify_bundle-IsTrusted}
use freebsd_laboratory.Signing.{
  Crypto, Loaded, ed25519, unreadable, verify_manifest_signature, check_signature, chosen_key,
  load_public_key, regular_file, loaded_key, object_of, is_text, text_of, given, schema_key,
  algorithm_key, digest_key, fingerprint_key, pem_key, signature_key, key_id_key, algorithm,
  signature_schema,
}

abbrev pub loaded_number : List ℕ → Loaded ℕ
loaded_number (k ∷ []) = ed25519 k
loaded_number _ = unreadable

abbrev manifest_bytes : List ℕ
manifest_bytes = text "manifest"

abbrev manifest_value : Json
manifest_value = object (
    member (text "schema") (str (text "softcloud.lab-evidence-manifest/v1")) (
      member (text "artifacts")
        (object (
          member (text "a.json")
            (object
              (member (text "sha256") (str (text "abc")) (member (text "size") (int (pos 3)) end)))
            end))
        end))

abbrev signature_value : Json
signature_value = object (
    member (text "schema") (str (text "softcloud.lab-signature/v1")) (
      member (text "algorithm") (str (text "ed25519")) (
        member (text "manifest_sha256") (str manifest_bytes) (
          member (text "public_key_sha256") (str (7 ∷ []))
            (member (text "signature_base64") (str (7 ∷ manifest_bytes)) end)))))

-- The parser knows the two documents.
abbrev parsed_document : List ℕ → Option Json
parsed_document raw =
    if eq_text raw manifest_bytes then some manifest_value else some signature_value

abbrev pub number_crypto : Crypto ℕ ℕ
number_crypto = record {
  load_private = loaded_number;
  load_public = loaded_number;
  public_key = λ k. k;
  public_pem = λ k. k ∷ [];
  sign = λ k bytes. k ∷ bytes;
  verify = λ k signature bytes. eq_text signature (k ∷ bytes);
  sha256 = λ bytes. bytes;
  ascii_decode = λ bytes. bytes;
  ascii_encode = λ t. some t;
  b64encode = λ bytes. bytes;
  b64decode = λ t. some t;
  dumps = λ j. [];
  loads = parsed_document;
}

abbrev signed_entry : Text → Entry
signed_entry name =
    if eq_text name (text "manifest.json")
    then regular manifest_bytes
    else if eq_text name (text "manifest.sig.json")
    then regular (text "signature")
    else regular (text "abc")

abbrev signed_bundle : Bundle
signed_bundle = record { is_symlink = false; is_dir = true; entry = signed_entry }

verify_bundle-IsTrusted_example : IsTrusted number_crypto signed_bundle (regular (7 ∷ [])) (record {
  artifacts = text "a.json" ∷ [];
  signature_verified = true;
  key_id = none;
  trusted_key_enforced = true;
})
unfolding verify_bundle verify_manifest get verify_artifacts check_artifact is_bad_name
    Bundle.sha256_key wrong_size Bundle.size_key signature_of signature_name
    verify_manifest_signature regular_file manifest_name object_of check_signature is_text
    schema_key text insert_text is_given key_id_of sorted artifacts_of checked_schema manifest_of
    algorithm algorithm_key chosen_key digest_key fingerprint_key given key_id_key load_public_key
    loaded_key pem_key signature_key signature_schema text_of
verify_bundle-IsTrusted_example =
    verify_bundle-IsTrusted number_crypto signed_bundle (regular (7 ∷ []))
      (record {
        artifacts = text "a.json" ∷ [];
        signature_verified = true;
        key_id = none;
        trusted_key_enforced = true;
      })
      refl
