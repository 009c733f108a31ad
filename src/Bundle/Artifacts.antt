-- ===== src/Bundle/Artifacts.antt =====
-- What a verified bundle's artifacts are.
use freebsd_laboratory.Base.{ℕ, false, List, [], ◌∷◌, Option, none, some, ◌≡◌, arith, inl, inr}
use freebsd_laboratory.Base.Text.{Text, eq_text_iff}
use freebsd_laboratory.Base.Result.{ok, Result-cases}
use freebsd_laboratory.Evidence.Json.{
  Json, Members, object, str, int, end, member, get, null, bool, real, array,
}
use freebsd_laboratory.Bundle.{
  Bundle, Readers, Entry, regular, missing, symbolic_link, check_artifact, verify_artifacts,
  is_bad_name, wrong_size, sha256_key, size_key, metadata_of, digest_of, content_of,
}

-- A file of the bundle with the digest and the size that its metadata records.
pub record IsIntact (read : Readers) (bundle : Bundle) (name : Text) (value : Json) : Type 0 where
  pub named : is_bad_name name ≡ false
  pub metadata : Members
  pub is_metadata : value ≡ object metadata
  pub bytes : List ℕ
  pub there : bundle.entry name ≡ regular bytes
  pub digest : get sha256_key metadata ≡ some (str (read.sha256 bytes))
  pub size : wrong_size (get size_key metadata) bytes ≡ false

metadata_of_sound :
    (name : Text) (v : Json) (d : Members) → metadata_of name v ≡ ok d → v ≡ object d
unfolding metadata_of
metadata_of_sound name (object d) e h = cc
metadata_of_sound name null e h = absurd cc
metadata_of_sound name (bool b) e h = absurd cc
metadata_of_sound name (int i) e h = absurd cc
metadata_of_sound name (real t) e h = absurd cc
metadata_of_sound name (str t) e h = absurd cc
metadata_of_sound name (array xs) e h = absurd cc

digest_of_sound :
    (name : Text) (o : Option Json) (t : Text) → digest_of name o ≡ ok t → o ≡ some (str t)
unfolding digest_of
digest_of_sound name (some (str t)) e h = cc
digest_of_sound name none e h = absurd cc
digest_of_sound name (some null) e h = absurd cc
digest_of_sound name (some (bool b)) e h = absurd cc
digest_of_sound name (some (int i)) e h = absurd cc
digest_of_sound name (some (real t)) e h = absurd cc
digest_of_sound name (some (array xs)) e h = absurd cc
digest_of_sound name (some (object d)) e h = absurd cc

content_of_sound :
    (name : Text) (e : Entry) (bytes : List ℕ) → content_of name e ≡ ok bytes → e ≡ regular bytes
unfolding content_of
content_of_sound name (regular bytes) b h = cc
content_of_sound name missing b h = absurd cc
content_of_sound name symbolic_link b h = absurd cc

module _ (read : Readers) (bundle : Bundle) where
  check_artifact-IsIntact :
      (name : Text) (value : Json)
      → check_artifact read bundle name value ≡ ok tt
      → IsIntact read bundle name value
  unfolding check_artifact
  check_artifact-IsIntact name value h = elim (Result-cases (metadata_of name value)) [
    | inr (e, bad) ↦ absurd (ground (arith, bad, h))
    | inl (metadata, is_object) ↦ elim (Result-cases (digest_of name (get sha256_key metadata))) [
      | inr (e, bad) ↦ absurd (ground (arith, is_object, bad, h))
      | inl (expected, recorded) ↦ elim (Result-cases (content_of name (bundle.entry name))) [
        | inr (e, bad) ↦ absurd (ground (arith, is_object, recorded, bad, h))
        | inl (bytes, there) ↦
            let same : read.sha256 bytes ≡ expected =
              (eq_text_iff (read.sha256 bytes) expected).0
                (ground (arith, is_object, recorded, there, h)) in
            record {
              named = ground (arith, is_object, recorded, there, h);
              metadata = metadata;
              is_metadata = metadata_of_sound name value metadata is_object;
              bytes = bytes;
              there = content_of_sound name (bundle.entry name) bytes there;
              digest = rw same (digest_of_sound name (get sha256_key metadata) expected recorded);
              size = ground (arith, is_object, recorded, there, h);
            }
      ]
    ]
  ]

  abbrev pub AllIntact : Members → Type 0
  AllIntact end = Unit
  AllIntact (member name value artifacts) = IsIntact read bundle name value × AllIntact artifacts

  abbrev pub names : Members → List Text
  names end = []
  names (member name value artifacts) = name ∷ names artifacts

  -- The loop over the artifacts succeeds only if each of them is a regular file of the bundle, under
  -- a plain name, with the recorded digest and size; and it answers with all of their names.
  pub verify_artifacts-AllIntact :
      (artifacts : Members) (verified : List Text)
      → verify_artifacts read bundle artifacts ≡ ok verified
      → AllIntact artifacts × (verified ≡ names artifacts)
  unfolding verify_artifacts
  verify_artifacts-AllIntact end verified h = (tt, ground arith)
  verify_artifacts-AllIntact (member name value artifacts) verified h =
      elim (Result-cases (check_artifact read bundle name value)) [
        | inr (e, bad) ↦ absurd (ground (arith, bad, h))
        | inl (u, good) ↦ elim (Result-cases (verify_artifacts read bundle artifacts)) [
          | inr (e, bad) ↦ absurd (ground (arith, good, bad, h))
          | inl (rest, others) ↦
              let all = verify_artifacts-AllIntact artifacts rest others in
              (
                (check_artifact-IsIntact name value good, all.0),
                ground (arith, good, others, h, all.1),
              )
        ]
      ]
