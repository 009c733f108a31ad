-- ===== src/Bundle/Verify/Trusted.antt =====
-- What it means that a bundle passes.
use freebsd_laboratory.Base.{
  none, refl, ℕ, true, List, Option, some, ◌≡◌, ap, ◌∙◌, sym, arith, inl, inr,
}
use freebsd_laboratory.Base.Text.{Text, text}
use freebsd_laboratory.Base.Result.{ok, Result-cases}
use freebsd_laboratory.Evidence.Json.{
  Json, Members, null, bool, int, real, str, array, object, end, member, get,
}
use freebsd_laboratory.Bundle.{
  Bundle, Entry, missing, symbolic_link, regular, verify_manifest, verify_artifacts, manifest_of,
  checked_schema, artifacts_of, object_manifest,
}
use freebsd_laboratory.Bundle.Artifacts.{AllIntact, names, verify_artifacts-AllIntact}
use freebsd_laboratory.Bundle.Verify.{
  Verified, verify_bundle, signature_of, readers, sorted, signature_name, manifest_name, is_given,
  key_id_of,
}
use freebsd_laboratory.Signing.{Crypto, ed25519, verify_manifest_signature, chosen_key}
use freebsd_laboratory.Signing.Sound.{
  IsVerified, verify_manifest_signature_sound, load_public_key_sound,
}

object_manifest_sound :
    (o : Option Json) (m : Members) → object_manifest o ≡ ok m → o ≡ some (object m)
object_manifest_sound (some (object d)) m h = ground (arith, h)
object_manifest_sound none m h = absurd cc
object_manifest_sound (some null) m h = absurd cc
object_manifest_sound (some (bool b)) m h = absurd cc
object_manifest_sound (some (int i)) m h = absurd cc
object_manifest_sound (some (real t)) m h = absurd cc
object_manifest_sound (some (str t)) m h = absurd cc
object_manifest_sound (some (array xs)) m h = absurd cc

regular_inj : (a b : List ℕ) → regular a ≡ regular b → a ≡ b
regular_inj a b h = cc

module _ {Private Public : Type 0} (crypto : Crypto Private Public) where
  -- The manifest bears the signature of the trusted key, and the artifacts that are recorded in it are
  -- intact.
  pub record IsTrusted (bundle : Bundle) (trusted : Entry) (v : Verified) : Type 0 where
    pub pem : List ℕ
    pub key : Public
    pub is_key : trusted ≡ regular pem
    pub loads : crypto.load_public pem ≡ ed25519 key
    pub document : Members
    pub signed :
        IsVerified crypto (bundle.entry manifest_name) (bundle.entry signature_name) key document
    pub manifest : Members
    pub parsed : crypto.loads signed.bytes ≡ some (object manifest)
    pub artifacts : Members
    pub recorded : get (text "artifacts") manifest ≡ some (object artifacts)
    pub intact : AllIntact (readers crypto) bundle artifacts
    pub listed : v.artifacts ≡ sorted (names (readers crypto) bundle artifacts)
    pub enforced : v.trusted_key_enforced ≡ true

  manifest_of_sound :
      (bundle : Bundle) (entry : Entry) (m : Members)
      → manifest_of (readers crypto) bundle entry ≡ ok m
      → (bytes : List ℕ) × (entry ≡ regular bytes) × (crypto.loads bytes ≡ some (object m))
  unfolding manifest_of
  manifest_of_sound bundle (regular bytes) m h =
      (bytes, refl, object_manifest_sound (crypto.loads bytes) m h)
  manifest_of_sound bundle missing m h = absurd cc
  manifest_of_sound bundle symbolic_link m h = absurd cc

  artifacts_of_sound :
      (bundle : Bundle) (o : Option Json) (a : Members)
      → artifacts_of (readers crypto) bundle o ≡ ok a
      → o ≡ some (object a)
  unfolding artifacts_of
  artifacts_of_sound bundle (some (object (member n v d))) a h = ground (arith, h)
  artifacts_of_sound bundle (some (object end)) a h = absurd cc
  artifacts_of_sound bundle none a h = absurd cc
  artifacts_of_sound bundle (some null) a h = absurd cc
  artifacts_of_sound bundle (some (bool b)) a h = absurd cc
  artifacts_of_sound bundle (some (int i)) a h = absurd cc
  artifacts_of_sound bundle (some (real t)) a h = absurd cc
  artifacts_of_sound bundle (some (str t)) a h = absurd cc
  artifacts_of_sound bundle (some (array xs)) a h = absurd cc

  verify_manifest_sound :
      (bundle : Bundle) (x : Members × List Text)
      → verify_manifest (readers crypto) bundle ≡ ok x
      → (m : Members) × (manifest_of (readers crypto) bundle (bundle.entry (text "manifest.json"))
          ≡ ok m)
        × (artifacts_of (readers crypto) bundle (get (text "artifacts") m) ≡ ok x.0)
        × (verify_artifacts (readers crypto) bundle x.0 ≡ ok x.1)
  unfolding verify_manifest
  verify_manifest_sound bundle x h =
      elim (Result-cases
        (manifest_of (readers crypto) bundle (bundle.entry (text "manifest.json")))) [
          | inr (e, bad) ↦ absurd (ground (arith, bad, h))
          | inl (m, read) ↦ elim (Result-cases (checked_schema (readers crypto) bundle m)) [
            | inr (e, bad) ↦ absurd (ground (arith, read, bad, h))
            | inl (u, schema) ↦
                elim (Result-cases
                  (artifacts_of (readers crypto) bundle (get (text "artifacts") m))) [
                    | inr (e, bad) ↦ absurd (ground (arith, read, schema, bad, h))
                    | inl (a, artifacts) ↦
                        elim (Result-cases (verify_artifacts (readers crypto) bundle a)) [
                          | inr (e, bad) ↦ absurd (ground (arith, read, schema, artifacts, bad, h))
                          | inl (n, good) ↦
                              let same : (a ≡ x.0) × (n ≡ x.1) =
                                ground (arith, read, schema, artifacts, good, h) in
                              (m, read, rw (← same.0) artifacts, rw (← same.0, ← same.1) good)
                        ]
                  ]
          ]
        ]

  signature_of_sound :
      (manifest signature trusted : Entry) (o : Option Members)
      → signature_of crypto manifest signature (some trusted) ≡ ok o
      → (d : Members) × (verify_manifest_signature crypto manifest signature (some trusted) ≡ ok d)
        × (o ≡ some d)
  unfolding signature_of
  signature_of_sound manifest symbolic_link trusted o h = absurd cc
  signature_of_sound manifest missing trusted o h = absurd cc
  signature_of_sound manifest (regular raw) trusted o h =
      elim (Result-cases (verify_manifest_signature crypto manifest (regular raw) (some trusted))) [
        | inr (e, bad) ↦ absurd (ground (arith, bad, h))
        | inl (d, good) ↦ (d, good, ground (arith, good, h))
      ]

  report : Members × List Text → Option Members → Verified
  report x o = record {
    artifacts = sorted x.1;
    signature_verified = is_given o;
    key_id = key_id_of crypto o;
    trusted_key_enforced = true;
  }

  -- The manifest of a bundle that passes with a trusted key bears a signature that the trusted key,
  -- and no key of the bundle's own, bears out; and the artifacts that the signed bytes of the manifest
  -- record, parsed, are all intact, and are those reported.
  pub verify_bundle-IsTrusted :
      (bundle : Bundle) (trusted : Entry) (v : Verified)
      → verify_bundle crypto bundle (some trusted) ≡ ok v
      → IsTrusted bundle trusted v
  unfolding verify_bundle chosen_key report is_given manifest_name
  verify_bundle-IsTrusted bundle trusted v h =
      elim (Result-cases (verify_manifest (readers crypto) bundle)) [
        | inr (e, bad) ↦ absurd (ground (arith, bad, h))
        | inl (x, manifest) ↦
            elim (Result-cases (
              signature_of crypto (bundle.entry manifest_name) (bundle.entry signature_name)
                (some trusted))) [
                  | inr (e, bad) ↦ absurd (ground (arith, manifest, bad, h))
                  | inl (o, signed) ↦
                      let same : report x o ≡ v = ground (arith, manifest, signed, h) in
                      let read = verify_manifest_sound bundle x manifest in
                      let all = verify_artifacts-AllIntact (readers crypto) bundle x.0 x.1 read.3 in
                      let d =
                        signature_of_sound (bundle.entry manifest_name)
                          (bundle.entry signature_name) trusted o signed in
                      let s = verify_manifest_signature_sound crypto _ _ (some trusted) d.0 d.1 in
                      let k = load_public_key_sound crypto trusted s.0 s.1 in
                      let artifacts_same : sorted x.1 ≡ v.artifacts = ap (λ w. w.artifacts) same in
                      let enforced_same : true ≡ v.trusted_key_enforced =
                        ap (λ w. w.trusted_key_enforced) same in
                      let file =
                        manifest_of_sound bundle (bundle.entry manifest_name) read.0 read.1 in
                      let one : file.0 ≡ s.2.bytes =
                        regular_inj file.0 s.2.bytes (sym file.1 ∙ s.2.is_manifest) in
                      record {
                        manifest = read.0;
                        parsed = ap crypto.loads (sym one) ∙ file.2;
                        recorded =
                            artifacts_of_sound bundle (get (text "artifacts") read.0) x.0 read.2;
                        artifacts = x.0;
                        intact = all.0;
                        listed = sym artifacts_same ∙ ap sorted all.1;
                        pem = k.0;
                        key = s.0;
                        is_key = k.1;
                        loads = k.2;
                        document = d.0;
                        signed = s.2;
                        enforced = sym enforced_same;
                      }
                ]
      ]
