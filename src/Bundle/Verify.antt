-- ===== src/Bundle/Verify.antt =====
-- `verify_bundle` of freebsd_laboratory/verify.py as a whole, with the signature.
pub mod Trusted
use freebsd_laboratory.Base.{
  ℕ, Bool, true, false, List, [], ◌∷◌, Option, none, some, not, if◌then◌else◌, ltb, ◌==◌,
}
use freebsd_laboratory.Base.Text.{Text, text}
use freebsd_laboratory.Base.Result.{Result, ok, err, value_error, ◌>>=◌}
use freebsd_laboratory.Evidence.Json.{Json, Members, get}
use freebsd_laboratory.Bundle.{
  Bundle, Readers, Entry, missing, symbolic_link, regular, verify_manifest,
}
use freebsd_laboratory.Signing.{Crypto, verify_manifest_signature, key_id_key}

-- What is reported of a bundle that passes.
pub record Verified : Type 0 where
  pub artifacts : List Text
  pub signature_verified : Bool
  pub key_id : Option Json
  pub trusted_key_enforced : Bool

-- Texts in the order of their code points.
unfoldable pub lt_text : Text → Text → Bool
lt_text s [] = false
lt_text [] (d ∷ t) = true
lt_text (c ∷ s) (d ∷ t) = let rest = lt_text s t in if c == d then rest else ltb c d

unfoldable pub insert_text : Text → List Text → List Text
insert_text s [] = s ∷ []
insert_text s (t ∷ ts) = let rest = insert_text s ts in if lt_text t s then t ∷ rest else s ∷ t ∷ ts

-- sorted(names)
unfoldable pub sorted : List Text → List Text
sorted [] = []
sorted (s ∷ ts) = insert_text s (sorted ts)

unfoldable pub signature_name : Text
unfolding text
signature_name = text "manifest.sig.json"

unfoldable pub manifest_name : Text
unfolding text
manifest_name = text "manifest.json"

unfoldable pub is_given : {A : Type 0} → Option A → Bool
is_given none = false
is_given (some a) = true

module _ {Private Public : Type 0} (crypto : Crypto Private Public) where
  abbrev pub readers : Readers
  readers = record { sha256 = crypto.sha256; parse = crypto.loads }

  -- The signature document, where there is one.
  unfoldable pub signature_of : Entry → Entry → Option Entry → Result (Option Members)
  signature_of manifest symbolic_link trusted =
      err (value_error "Evidence signature must not be a symbolic link")
  signature_of manifest missing none = ok none
  signature_of manifest missing (some trusted) =
      err (value_error "A trusted public key was supplied but the bundle is unsigned")
  signature_of manifest (regular raw) trusted =
      verify_manifest_signature crypto manifest (regular raw) trusted >>= λ d. ok (some d)

  unfoldable pub key_id_of : Option Members → Option Json
  key_id_of none = none
  key_id_of (some d) = get key_id_key d

  -- `verify_bundle`, with the entry of the key that is trusted, if any
  unfoldable pub verify_bundle : Bundle → Option Entry → Result Verified
  verify_bundle bundle trusted = do
    manifest ← verify_manifest readers bundle
    signature ← signature_of (bundle.entry manifest_name) (bundle.entry signature_name) trusted
    ok (record {
      artifacts = sorted manifest.1;
      signature_verified = is_given signature;
      key_id = key_id_of signature;
      trusted_key_enforced = is_given trusted;
    })
