-- ===== src/Signing/Sound.antt =====
-- What a verified signature shows.
use freebsd_laboratory.Base.{
  ℕ, true, false, not, List, Option, none, some, ◌≡◌, refl, ap, ◌∙◌, sym, arith, inl, inr,
}
use freebsd_laboratory.Base.Text.{Text, eq_text_iff}
use freebsd_laboratory.Base.Result.{ok, Error, value_error, Result-cases}
use freebsd_laboratory.Evidence.Json.{Json, Members, null, bool, int, real, str, array, object, get}
use freebsd_laboratory.Bundle.{Entry, missing, symbolic_link, regular}
use freebsd_laboratory.Signing.{
  Crypto, Loaded, ed25519, unreadable, other_algorithm, regular_file, is_text, text_of, loaded_key,
  given, object_of, load_public_key, chosen_key, check_signature, verify_manifest_signature,
  digest_key, fingerprint_key, signature_key,
}

is_text_sound : (o : Option Json) (t : Text) → not (is_text o t) ≡ false → o ≡ some (str t)
unfolding is_text
is_text_sound (some (str s)) t h = ap (λ x. some (str x)) ((eq_text_iff s t).0 (ground (arith, h)))
is_text_sound none t h = absurd cc
is_text_sound (some null) t h = absurd cc
is_text_sound (some (bool b)) t h = absurd cc
is_text_sound (some (int i)) t h = absurd cc
is_text_sound (some (real r)) t h = absurd cc
is_text_sound (some (array xs)) t h = absurd cc
is_text_sound (some (object d)) t h = absurd cc

text_of_sound : (e : Error) (o : Option Json) (t : Text) → text_of e o ≡ ok t → o ≡ some (str t)
unfolding text_of
text_of_sound e (some (str s)) t h = ground (arith, h)
text_of_sound e none t h = absurd cc
text_of_sound e (some null) t h = absurd cc
text_of_sound e (some (bool b)) t h = absurd cc
text_of_sound e (some (int i)) t h = absurd cc
text_of_sound e (some (real r)) t h = absurd cc
text_of_sound e (some (array xs)) t h = absurd cc
text_of_sound e (some (object d)) t h = absurd cc

regular_file_sound :
    (e : Error) (entry : Entry) (bytes : List ℕ)
    → regular_file e entry ≡ ok bytes
    → entry ≡ regular bytes
unfolding regular_file
regular_file_sound e (regular b) bytes h = ground (arith, h)
regular_file_sound e missing bytes h = absurd cc
regular_file_sound e symbolic_link bytes h = absurd cc

loaded_key_sound :
    {K : Type 0} (broken wrong : Error) (l : Loaded K) (key : K)
    → loaded_key broken wrong l ≡ ok key
    → l ≡ ed25519 key
unfolding loaded_key
loaded_key_sound broken wrong (ed25519 k) key h = ground (arith, h)
loaded_key_sound broken wrong unreadable key h = absurd cc
loaded_key_sound broken wrong other_algorithm key h = absurd cc

given_sound : {A : Type 0} (e : Error) (o : Option A) (a : A) → given e o ≡ ok a → o ≡ some a
unfolding given
given_sound e (some b) a h = ground (arith, h)
given_sound e none a h = absurd cc

object_of_sound :
    (broken wrong : Error) (o : Option Json) (d : Members)
    → object_of broken wrong o ≡ ok d
    → o ≡ some (object d)
unfolding object_of
object_of_sound broken wrong (some (object m)) d h = ground (arith, h)
object_of_sound broken wrong none d h = absurd cc
object_of_sound broken wrong (some null) d h = absurd cc
object_of_sound broken wrong (some (bool b)) d h = absurd cc
object_of_sound broken wrong (some (int i)) d h = absurd cc
object_of_sound broken wrong (some (real r)) d h = absurd cc
object_of_sound broken wrong (some (str t)) d h = absurd cc
object_of_sound broken wrong (some (array xs)) d h = absurd cc

abbrev no_signature : Error
no_signature = value_error "Signature metadata does not contain a signature"

abbrev no_base64 : Error
no_base64 = value_error "Invalid base64 signature"

abbrev no_json : Error
no_json = value_error "Invalid signature JSON"

abbrev no_object : Error
no_object = value_error "Signature document must be an object"

module _ {Private Public : Type 0} (crypto : Crypto Private Public) where
  -- A signature document that a key's signature of the manifest bears out.
  pub record IsSigned (manifest : List ℕ) (key : Public) (d : Members) : Type 0 where
    pub raw : Text
    pub signature : List ℕ
    pub digest : get digest_key d ≡ some (str (crypto.sha256 manifest))
    pub fingerprint : get fingerprint_key d ≡ some (str (crypto.sha256 (crypto.public_pem key)))
    pub recorded : get signature_key d ≡ some (str raw)
    pub decoded : crypto.b64decode raw ≡ some signature
    pub verified : crypto.verify key signature manifest ≡ true

  check_signature-IsSigned :
      (manifest : List ℕ) (trusted : Option Entry) (d e : Members)
      → check_signature crypto manifest trusted d ≡ ok e
      → (key : Public) × (chosen_key crypto trusted d ≡ ok key) × IsSigned manifest key d × (e ≡ d)
  unfolding check_signature
  check_signature-IsSigned manifest trusted d e h =
      elim (Result-cases (chosen_key crypto trusted d)) [
        | inr (x, bad) ↦ absurd (ground (arith, bad, h))
        | inl (key, chosen) ↦ elim (Result-cases (text_of no_signature (get signature_key d))) [
          | inr (x, bad) ↦ absurd (ground (arith, chosen, bad, h))
          | inl (raw, recorded) ↦ elim (Result-cases (given no_base64 (crypto.b64decode raw))) [
            | inr (x, bad) ↦ absurd (ground (arith, chosen, recorded, bad, h))
            | inl (signature, decoded) ↦ (
              key,
              chosen,
              record {
                raw = raw;
                signature = signature;
                digest =
                    is_text_sound (get digest_key d) (crypto.sha256 manifest)
                      (ground (arith, chosen, recorded, decoded, h));
                fingerprint =
                    is_text_sound (get fingerprint_key d) (crypto.sha256 (crypto.public_pem key))
                      (ground (arith, chosen, recorded, decoded, h));
                recorded = text_of_sound no_signature (get signature_key d) raw recorded;
                decoded = given_sound no_base64 (crypto.b64decode raw) signature decoded;
                verified = ground (arith, chosen, recorded, decoded, h);
              },
              ground (arith, chosen, recorded, decoded, h),
            )
          ]
        ]
      ]

  pub load_public_key_sound :
      (entry : Entry) (key : Public)
      → load_public_key crypto entry ≡ ok key
      → (pem : List ℕ) × (entry ≡ regular pem) × (crypto.load_public pem ≡ ed25519 key)
  unfolding load_public_key regular_file loaded_key
  load_public_key_sound (regular pem) key h =
      (pem, refl, loaded_key_sound _ _ (crypto.load_public pem) key h)
  load_public_key_sound missing key h = absurd cc
  load_public_key_sound symbolic_link key h = absurd cc

  -- A verified signature of a manifest.
  pub record IsVerified (manifest signature : Entry) (key : Public) (d : Members) : Type 0 where
    pub bytes : List ℕ
    pub raw : List ℕ
    pub is_manifest : manifest ≡ regular bytes
    pub is_signature : signature ≡ regular raw
    pub parsed : crypto.loads raw ≡ some (object d)
    pub signed : IsSigned bytes key d

  pub verify_manifest_signature_sound :
      (manifest signature : Entry) (trusted : Option Entry) (d : Members)
      → verify_manifest_signature crypto manifest signature trusted ≡ ok d
      → (key : Public) × (chosen_key crypto trusted d ≡ ok key)
        × IsVerified manifest signature key d
  unfolding verify_manifest_signature regular_file
  verify_manifest_signature_sound (regular bytes) (regular raw) trusted d h =
      elim (Result-cases (object_of no_json no_object (crypto.loads raw))) [
        | inr (x, bad) ↦ absurd (ground (arith, bad, h))
        | inl (m, parsed) ↦
            let checked : check_signature crypto bytes trusted m ≡ ok d = rw parsed at h in
            let s = check_signature-IsSigned bytes trusted m d checked in
            (
              s.0,
              ap (chosen_key crypto trusted) s.3 ∙ s.1,
              record {
                bytes = bytes;
                raw = raw;
                is_manifest = refl;
                is_signature = refl;
                parsed =
                    object_of_sound no_json no_object (crypto.loads raw) m parsed
                    ∙ ap (λ n. some (object n)) (sym s.3);
                signed = rw s.3 s.2;
              },
            )
      ]
  verify_manifest_signature_sound missing signature trusted d h = absurd cc
  verify_manifest_signature_sound symbolic_link signature trusted d h = absurd cc
  verify_manifest_signature_sound (regular bytes) missing trusted d h = absurd cc
  verify_manifest_signature_sound (regular bytes) symbolic_link trusted d h = absurd cc
