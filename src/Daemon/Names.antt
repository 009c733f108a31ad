-- ===== src/Daemon/Names.antt =====
-- The validators of freebsd_laboratory/runtime_daemon.py, and `runtime_name` of
-- freebsd_laboratory/remote_provisioner.py, which makes the names that they accept.
use freebsd_laboratory.Base.{
  ℕ, ◌+◌, Bool, true, false, List, [], ◌∷◌, ◌++◌, Option, none, some, ◌≡◌, refl, not, ◌&&◌, ◌||◌,
  ◌==◌, leb, ltb, if◌then◌else◌, is_nil, all, all-take, any, length, length-take-le, take, drop,
  drop-append, arith,
}
use freebsd_laboratory.Base.Int.{ℤ, le_ℤ}
use freebsd_laboratory.Base.Text.{
  Text, text, eq_text, starts_with, starts_with-append, is_lower, is_upper, is_digit,
}
use freebsd_laboratory.Base.Split.{words}
use freebsd_laboratory.Base.Value.{Value}
use freebsd_laboratory.Base.Result.{Result, ok, err, value_error, ◌>>=◌, ◌>>◌, raise_if}

-- [a-z0-9]
unfoldable pub is_name_char : ℕ → Bool
unfolding is_lower is_digit
is_name_char c = is_lower c || is_digit c

-- A text that stays shut in proofs.
unfoldable pub runtime_prefix : Text
unfolding text
runtime_prefix = text "freebsd-lab-"

-- The pattern's part behind the prefix: [a-z0-9]{1,16}
abbrev pub is_suffix : Text → Bool
is_suffix s = not (is_nil s) && leb (length s) 16 && all is_name_char s

-- RUNTIME_NAME_RE.fullmatch(name)
unfoldable pub matches_runtime_name : Text → Bool
matches_runtime_name name =
    starts_with name runtime_prefix && is_suffix (drop (length runtime_prefix) name)

unfoldable pub validate_name : Text → Result Text
validate_name name =
    if matches_runtime_name name
    then ok name
    else err (value_error "Invalid FreeBSD Laboratory runtime name")

unfoldable pub validate_owner_pid : Value → Result ℤ
validate_owner_pid (Value.int pid) =
    if le_ℤ 2 pid then ok pid else err (value_error "owner_pid must be a positive host process id")
validate_owner_pid _ = err (value_error "owner_pid must be a positive host process id")

-- The first two fields of `value.strip().split(maxsplit=2)`.
first_two : List Text → Option (Text × Text)
first_two (a ∷ b ∷ rest) = some (a, b)
first_two _ = none

key_field : Option (Text × Text) → Result Text
key_field none = err (value_error "Runtime SSH public key must be Ed25519")
key_field (some (kind, field)) =
    if eq_text kind (text "ssh-ed25519")
    then ok field
    else err (value_error "Runtime SSH public key must be Ed25519")

decoded : Option (List ℕ) → Result (List ℕ)
decoded none = err (value_error "Runtime SSH public key has invalid base64")
decoded (some blob) = ok blob

-- A big-endian 32-bit length, the algorithm's name, the length of the key, and 32 bytes of key.
unfoldable pub is_ed25519_blob : List ℕ → Bool
unfolding text
is_ed25519_blob blob =
    length blob == 51
    && eq_text (take 4 blob) (0 ∷ 0 ∷ 0 ∷ 11 ∷ [])
    && eq_text (take 11 (drop 4 blob)) (text "ssh-ed25519")
    && eq_text (take 4 (drop 15 blob)) (0 ∷ 0 ∷ 0 ∷ 32 ∷ [])

unfoldable pub validate_ssh_public_key : (Text → Option (List ℕ)) → Text → Result Text
unfolding key_field first_two decoded is_ed25519_blob text
validate_ssh_public_key b64decode value = do
  raise_if (is_nil value || ltb 1024 (length value))
      (value_error "Runtime SSH public key is invalid")
  raise_if (any (λ c. c == 10 || c == 13) value)
      (value_error "Runtime SSH public key must be one line")
  field ← key_field (first_two (words value))
  blob ← decoded (b64decode field)
  raise_if (not (is_ed25519_blob blob))
      (value_error "Runtime SSH public key has invalid Ed25519 encoding")
  ok (text "ssh-ed25519 " ++ field)

-- [a-zA-Z0-9]
is_alnum : ℕ → Bool
is_alnum c = is_lower c || is_upper c || is_digit c

to_lower : ℕ → ℕ
to_lower c = if is_upper c then c + 32 else c

-- re.sub(r"[^a-zA-Z0-9]", "", kernel_id).lower()
compact : Text → Text
compact [] = []
compact (c ∷ s) = let rest = compact s in if is_alnum c then to_lower c ∷ rest else rest

unfoldable pub runtime_name : Text → Result Text
unfolding compact is_alnum to_lower is_lower is_upper is_digit
runtime_name kernel_id =
    if is_nil (compact kernel_id)
    then err (value_error "kernel_id does not contain a usable identifier")
    else ok (runtime_prefix ++ take 16 (compact kernel_id))

to_lower-name_char : (c : ℕ) → is_alnum c ≡ true → is_name_char (to_lower c) ≡ true
unfolding is_alnum to_lower is_name_char is_upper
to_lower-name_char c h = ground arith

all-compact : (s : Text) → all is_name_char (compact s) ≡ true
unfolding compact
all-compact [] = refl
all-compact (c ∷ s) = ground (arith, all-compact s, to_lower-name_char c)

pub matches-prefixed :
    (s : Text) → is_suffix s ≡ true → matches_runtime_name (runtime_prefix ++ s) ≡ true
unfolding matches_runtime_name
matches-prefixed s h =
    ground (arith, starts_with-append runtime_prefix s, drop-append runtime_prefix s)

is_suffix-take :
    (s : Text) → is_nil s ≡ false → all is_name_char s ≡ true → is_suffix (take 16 s) ≡ true
is_suffix-take [] h a = ground arith
is_suffix-take (c ∷ s) h a =
    ground (arith, all-take is_name_char 16 (c ∷ s), length-take-le 16 (c ∷ s))

-- Every name that the provisioner makes from a kernel id passes the daemon's validation unchanged.
pub validate_name-runtime_name :
    (kernel_id name : Text) → runtime_name kernel_id ≡ ok name → validate_name name ≡ ok name
unfolding runtime_name validate_name
validate_name-runtime_name kernel_id name h = ground (
  arith,
  matches-prefixed (take 16 (compact kernel_id)),
  is_suffix-take (compact kernel_id),
  all-compact kernel_id,
)
