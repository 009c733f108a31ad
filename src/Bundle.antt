-- ===== src/Bundle.antt =====
-- `verify_bundle` of freebsd_laboratory/verify.py, up to the signature: the manifest's own checks and
-- the comparison of every artifact with its recorded digest and size. SHA-256 and the JSON parser
-- are parameters.
pub mod Artifacts
pub mod Verify
use freebsd_laboratory.Base.{
  ℕ, Bool, true, false, List, [], ◌∷◌, Option, none, some, ◌≡◌, refl, not, ◌&&◌, ◌||◌, ◌==◌,
  if◌then◌else◌, is_nil, length, any,
}
use freebsd_laboratory.Base.Int.{ℤ, pos, eq_ℤ}
use freebsd_laboratory.Base.Text.{Text, text, eq_text}
use freebsd_laboratory.Base.Result.{
  Result, ok, err, Error, value_error, runtime_error, ◌>>=◌, ◌>>◌, raise_if,
}
use freebsd_laboratory.Evidence.Json
use freebsd_laboratory.Evidence.Json.{Json, Members, object, str, int, end, member, get}

-- What stands at a name of the bundle's directory.
pub data Entry : Type 0 where
  missing symbolic_link : Entry
  regular : List ℕ → Entry

pub record Bundle : Type 0 where
  pub is_symlink : Bool
  pub is_dir : Bool
  pub entry : Text → Entry

pub record Readers : Type 0 where
  pub sha256 : List ℕ → Text
  pub parse : List ℕ → Option Json

-- not name or name in {".", ".."} or Path(name).name != name
unfoldable pub is_bad_name : Text → Bool
is_bad_name name =
    is_nil name
    || eq_text name (b'.' ∷ [])
    || eq_text name (b'.' ∷ b'.' ∷ [])
    || any (λ c. c == b'/') name

-- isinstance(size, int), not a bool, and another size than the file's
unfoldable pub wrong_size : Option Json → List ℕ → Bool
wrong_size (some (int size)) bytes = not (eq_ℤ (pos (length bytes)) size)
wrong_size _ bytes = false

digest_of : Text → Option Json → Result Text
digest_of name (some (str digest)) = ok digest
digest_of name _ = err (runtime_error "Missing SHA-256" (name ∷ []))

metadata_of : Text → Json → Result Members
metadata_of name (object metadata) = ok metadata
metadata_of name _ = err (runtime_error "Invalid artifact metadata" (name ∷ []))

content_of : Text → Entry → Result (List ℕ)
content_of name (regular bytes) = ok bytes
content_of name _ = err (runtime_error "Evidence artifact is missing" (name ∷ []))

unfoldable pub sha256_key : Text
unfolding text
sha256_key = text "sha256"

unfoldable pub size_key : Text
unfolding text
size_key = text "size"

abbrev pub object_manifest : Option Json → Result Members
object_manifest (some (object manifest)) = ok manifest
object_manifest (some _) = err (value_error "manifest.json must be an object")
object_manifest none = err (value_error "Invalid manifest.json")

module _ (read : Readers) (bundle : Bundle) where
  -- The checks of one artifact.
  unfoldable pub check_artifact : Text → Json → Result (Unit {0})
  unfolding digest_of metadata_of content_of
  check_artifact name value = do
    raise_if (is_bad_name name) (runtime_error "Invalid artifact path in manifest" (name ∷ []))
    metadata ← metadata_of name value
    expected ← digest_of name (get sha256_key metadata)
    bytes ← content_of name (bundle.entry name)
    raise_if (not (eq_text (read.sha256 bytes) expected))
        (runtime_error "Evidence artifact hash mismatch" (name ∷ []))
    raise_if (wrong_size (get size_key metadata) bytes)
        (runtime_error "Evidence artifact size mismatch" (name ∷ []))

  -- The loop over the artifacts: the names that passed, in order.
  unfoldable pub verify_artifacts : Members → Result (List Text)
  verify_artifacts end = ok []
  verify_artifacts (member name value artifacts) = do
    check_artifact name value
    verified ← verify_artifacts artifacts
    ok (name ∷ verified)

  unfoldable pub manifest_of : Entry → Result Members
  manifest_of (regular bytes) = object_manifest (read.parse bytes)
  manifest_of _ = err (value_error "manifest.json is missing")

  unfoldable pub checked_schema : Members → Result (Unit {0})
  unfolding text
  checked_schema manifest = elim (get (text "schema") manifest) [
    | some (str s) ↦
        raise_if (not (eq_text s (text "softcloud.lab-evidence-manifest/v1")))
          (value_error "Unsupported evidence manifest schema")
    | _ ↦ err (value_error "Unsupported evidence manifest schema")
  ]

  unfoldable pub artifacts_of : Option Json → Result Members
  artifacts_of (some (object (member name value artifacts))) = ok (member name value artifacts)
  artifacts_of _ = err (value_error "Evidence manifest does not contain artifact hashes")

  -- The method up to the signature: the artifacts of the manifest, and the names verified.
  unfoldable pub verify_manifest : Result (Members × List Text)
  unfolding manifest_of checked_schema artifacts_of text
  verify_manifest = do
    raise_if bundle.is_symlink (value_error "Evidence bundle must not be a symbolic link")
    raise_if (not bundle.is_dir) (value_error "Evidence bundle directory does not exist")
    manifest ← manifest_of (bundle.entry (text "manifest.json"))
    checked_schema manifest
    artifacts ← artifacts_of (get (text "artifacts") manifest)
    verified ← verify_artifacts artifacts
    ok (artifacts, verified)
