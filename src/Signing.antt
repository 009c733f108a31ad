-- ===== src/Signing.antt =====
-- freebsd_laboratory/signing.py. The library of keys and signatures, base64, SHA-256 and the JSON
-- encoder and decoder are parameters; the files of a directory are its entries.
pub mod Sound
use freebsd_laboratory.Base.{
  ℕ, Bool, true, false, List, [], ◌∷◌, ◌++◌, Option, none, some, not, if◌then◌else◌, is_nil,
}
use freebsd_laboratory.Base.Text.{Text, text, eq_text}
use freebsd_laboratory.Base.Result.{Result, ok, err, Error, value_error, ◌>>=◌, ◌>>◌, raise_if}
use freebsd_laboratory.Evidence.Json.{
  Json, Members, null, bool, int, real, str, array, object, end, member, get,
}
use freebsd_laboratory.Bundle.{Entry, missing, symbolic_link, regular}

-- What loading a PEM file gives: an exception, a key of another algorithm, or an Ed25519 key.
pub data Loaded (K : Type 0) : Type 0 where
  unreadable other_algorithm : Loaded K
  ed25519 : K → Loaded K

-- The cryptography package, with the encodings of the signature document. `dumps` sorts the keys and
-- ends with a newline.
pub record Crypto (Private Public : Type 0) : Type 0 where
  pub load_private : List ℕ → Loaded Private
  pub load_public : List ℕ → Loaded Public
  pub public_key : Private → Public
  pub public_pem : Public → List ℕ
  pub sign : Private → List ℕ → List ℕ
  pub verify : Public → List ℕ → List ℕ → Bool
  pub sha256 : List ℕ → Text
  pub ascii_decode : List ℕ → Text
  pub ascii_encode : Text → Option (List ℕ)
  pub b64encode : List ℕ → Text
  pub b64decode : Text → Option (List ℕ)
  pub dumps : Json → List ℕ
  pub loads : List ℕ → Option Json

-- The keys of the document, shut.
unfoldable pub schema_key : Text
unfolding text
schema_key = text "schema"

unfoldable pub algorithm_key : Text
unfolding text
algorithm_key = text "algorithm"

unfoldable pub digest_key : Text
unfolding text
digest_key = text "manifest_sha256"

unfoldable pub fingerprint_key : Text
unfolding text
fingerprint_key = text "public_key_sha256"

unfoldable pub pem_key : Text
unfolding text
pem_key = text "public_key_pem"

unfoldable pub signature_key : Text
unfolding text
signature_key = text "signature_base64"

unfoldable pub key_id_key : Text
unfolding text
key_id_key = text "key_id"

unfoldable pub signature_schema : Text
unfolding text
signature_schema = text "softcloud.lab-signature/v1"

unfoldable pub algorithm : Text
unfolding text
algorithm = text "ed25519"

-- The bytes of a regular file.
unfoldable pub regular_file : Error → Entry → Result (List ℕ)
regular_file e (regular bytes) = ok bytes
regular_file e missing = err e
regular_file e symbolic_link = err e

-- `d.get(key) == t`
unfoldable pub is_text : Option Json → Text → Bool
is_text (some (str s)) t = eq_text s t
is_text _ t = false

unfoldable pub text_of : Error → Option Json → Result Text
text_of e (some (str t)) = ok t
text_of e _ = err e

unfoldable pub loaded_key : {K : Type 0} → Error → Error → Loaded K → Result K
loaded_key broken wrong unreadable = err broken
loaded_key broken wrong other_algorithm = err wrong
loaded_key broken wrong (ed25519 key) = ok key

unfoldable pub given : {A : Type 0} → Error → Option A → Result A
given e none = err e
given e (some a) = ok a

unfoldable pub object_of : Error → Error → Option Json → Result Members
object_of broken wrong none = err broken
object_of broken wrong (some (object d)) = ok d
object_of broken wrong (some _) = err wrong

module _ {Private Public : Type 0} (crypto : Crypto Private Public) where
  unfoldable pub load_private_key : Entry → Result Private
  load_private_key entry = do
    pem ← regular_file (value_error "Evidence signing key must be a regular file") entry
    loaded_key (value_error "Unreadable private key")
        (value_error "Evidence signing key must be an Ed25519 private key")
        (crypto.load_private pem)

  unfoldable pub load_public_key : Entry → Result Public
  load_public_key entry = do
    pem ← regular_file (value_error "Evidence verification key must be a regular file") entry
    loaded_key (value_error "Unreadable public key")
        (value_error "Evidence verification key must be an Ed25519 public key")
        (crypto.load_public pem)

  -- The signature document, in the order in which its keys are printed.
  unfoldable pub signature_document : Private → Text → Text → List ℕ → Members
  unfolding text
  signature_document key key_id name manifest = member algorithm_key (str algorithm) (
      member key_id_key (str key_id) (
        member (text "manifest") (str name) (
          member digest_key (str (crypto.sha256 manifest)) (
            member pem_key (str (crypto.ascii_decode (crypto.public_pem (crypto.public_key key)))) (
              member fingerprint_key
                (str (crypto.sha256 (crypto.public_pem (crypto.public_key key))))
                (member schema_key (str signature_schema) (
                  member signature_key (str (crypto.b64encode (crypto.sign key manifest)))
                    end)))))))

  -- The bytes of the signature file that `sign_manifest` puts in the place of any other.
  unfoldable pub sign_manifest : Text → Entry → Entry → Text → Result (List ℕ)
  sign_manifest name manifest private_key key_id = do
    bytes ← regular_file (value_error "Manifest path must be a regular file") manifest
    raise_if (is_nil key_id) (value_error "key_id must be a non-empty string")
    key ← load_private_key private_key
    ok (crypto.dumps (object (signature_document key key_id name bytes)))

  -- The key of the document, where no key is trusted.
  unfoldable pub embedded_key : Members → Result Public
  embedded_key d = do
    embedded ←
        text_of (value_error "Signature metadata does not contain a public key") (get pem_key d)
    pem ← given (value_error "Invalid embedded public key") (crypto.ascii_encode embedded)
    loaded_key (value_error "Invalid embedded public key")
        (value_error "Embedded signature key is not Ed25519") (crypto.load_public pem)

  unfoldable pub chosen_key : Option Entry → Members → Result Public
  chosen_key none d = embedded_key d
  chosen_key (some trusted) d = load_public_key trusted

  -- The checks of the document against the manifest, with the key that the caller trusts, if any.
  unfoldable pub check_signature : List ℕ → Option Entry → Members → Result Members
  check_signature manifest trusted d = do
    raise_if (not (is_text (get schema_key d) signature_schema))
        (value_error "Unsupported evidence signature format")
    raise_if (not (is_text (get algorithm_key d) algorithm))
        (value_error "Unsupported evidence signature format")
    raise_if (not (is_text (get digest_key d) (crypto.sha256 manifest)))
        (value_error "Manifest hash does not match signature metadata")
    key ← chosen_key trusted d
    raise_if (not (is_text (get fingerprint_key d) (crypto.sha256 (crypto.public_pem key))))
        (value_error "Signature key does not match")
    raw ←
        text_of (value_error "Signature metadata does not contain a signature")
          (get signature_key d)
    signature ← given (value_error "Invalid base64 signature") (crypto.b64decode raw)
    raise_if (not (crypto.verify key signature manifest))
        (value_error "Manifest signature verification failed")
    ok d

  unfoldable pub verify_manifest_signature : Entry → Entry → Option Entry → Result Members
  verify_manifest_signature manifest signature trusted = do
    bytes ← regular_file (value_error "Manifest path must be a regular file") manifest
    raw ← regular_file (value_error "Signature path must be a regular file") signature
    d ←
        object_of (value_error "Invalid signature JSON")
          (value_error "Signature document must be an object") (crypto.loads raw)
    check_signature bytes trusted d
