-- ===== src/Evidence/Redact.antt =====
-- `redact_payload`: the value under a sensitive key is masked, at every depth.
use freebsd_laboratory.Base.{
  ℕ, ◌+◌, Bool, true, false, List, [], ◌∷◌, ◌≡◌, refl, ap, ◌&&◌, ◌||◌, ◌==◌, if◌then◌else◌, arith,
  drop, length, map, Bool-cases, inl, inr,
}
use freebsd_laboratory.Base.Text.{Text, text, starts_with, is_upper}
use freebsd_laboratory.Evidence.Json.{
  Json, Items, Members, null, bool, int, real, str, array, object, nil, item, end, member,
}

-- What re.IGNORECASE takes for the same letter: the two cases of a letter, and the four letters
-- outside ASCII that fold to one of i, k and s.
unfoldable pub fold_case : ℕ → ℕ
fold_case c =
    if is_upper c
    then c + 32
    else if c == 0x130 || c == 0x131
    then b'i'
    else if c == 0x212A
    then b'k'
    else if c == 0x17F
    then b's'
    else c

is_boundary : ℕ → Bool
is_boundary c = c == b'_' || c == b'-'

-- (?:$|[_-]); `$` also matches before a final newline.
at_end : Text → Bool
unfolding is_boundary
at_end [] = true
at_end (c ∷ []) = is_boundary c || c == 10
at_end (c ∷ d ∷ s) = is_boundary c

unfoldable pub sensitive_words : List Text
unfolding text
sensitive_words =
    text "authorization"
    ∷ text "cookie"
    ∷ text "credential"
    ∷ text "password"
    ∷ text "passwd"
    ∷ text "secret"
    ∷ text "token"
    ∷ text "apikey"
    ∷ text "api_key"
    ∷ text "api-key"
    ∷ text "privatekey"
    ∷ text "private_key"
    ∷ text "private-key"
    ∷ []

-- One of the words, and its end, at the front of a text.
word_here : List Text → Text → Bool
word_here [] s = false
word_here (w ∷ ws) s = (starts_with s w && at_end (drop (length w) s)) || word_here ws s

-- A word behind a boundary, anywhere.
word_behind : Text → Bool
word_behind [] = false
word_behind (c ∷ s) = (is_boundary c && word_here sensitive_words s) || word_behind s

-- SENSITIVE_KEY_RE.search(key)
unfoldable pub is_sensitive : Text → Bool
unfolding word_here word_behind at_end is_boundary sensitive_words fold_case text is_upper
is_sensitive key =
    let folded = map fold_case key in word_here sensitive_words folded || word_behind folded

unfoldable pub redacted_value : Text
unfolding text
redacted_value = text "[REDACTED]"

unfoldable mutual
  pub redact_payload : Json → Json
  redact_payload null = null
  redact_payload (bool b) = bool b
  redact_payload (int i) = int i
  redact_payload (real t) = real t
  redact_payload (str t) = str t
  redact_payload (array xs) = array (redact_items xs)
  redact_payload (object d) = object (redact_members d)

  pub redact_items : Items → Items
  redact_items nil = nil
  redact_items (item x xs) = item (redact_payload x) (redact_items xs)

  pub redact_members : Members → Members
  redact_members end = end
  redact_members (member k v d) =
      let masked = redact_payload v in
      member k (if is_sensitive k then str redacted_value else masked) (redact_members d)

-- Every value under a sensitive key is the mask.
unfoldable mutual
  pub IsRedacted : Json → Type 0
  IsRedacted null = Unit
  IsRedacted (bool b) = Unit
  IsRedacted (int i) = Unit
  IsRedacted (real t) = Unit
  IsRedacted (str t) = Unit
  IsRedacted (array xs) = AreRedacted xs
  IsRedacted (object d) = HasRedacted d

  pub AreRedacted : Items → Type 0
  AreRedacted nil = Unit
  AreRedacted (item x xs) = IsRedacted x × AreRedacted xs

  pub HasRedacted : Members → Type 0
  HasRedacted end = Unit
  HasRedacted (member k v d) =
      ((is_sensitive k ≡ true → v ≡ str redacted_value) × IsRedacted v) × HasRedacted d

masked_value :
    (k : Text) (v : Json)
    → IsRedacted v
    → let w = if is_sensitive k then str redacted_value else v in
      (is_sensitive k ≡ true → w ≡ str redacted_value) × IsRedacted w
unfolding IsRedacted
masked_value k v h = elim (Bool-cases (is_sensitive k)) [
  | inl yes_it_is ↦ rw yes_it_is (λ e. refl, tt)
  | inr plain ↦ rw plain (λ e. absurd cc, h)
]

mutual
  unfolding redact_payload IsRedacted

  redact_payload-IsRedacted : (v : Json) → IsRedacted (redact_payload v)
  redact_payload-IsRedacted null = tt
  redact_payload-IsRedacted (bool b) = tt
  redact_payload-IsRedacted (int i) = tt
  redact_payload-IsRedacted (real t) = tt
  redact_payload-IsRedacted (str t) = tt
  redact_payload-IsRedacted (array xs) = redact_items-AreRedacted xs
  redact_payload-IsRedacted (object d) = redact_members-HasRedacted d

  redact_items-AreRedacted : (xs : Items) → AreRedacted (redact_items xs)
  redact_items-AreRedacted nil = tt
  redact_items-AreRedacted (item x xs) = (redact_payload-IsRedacted x, redact_items-AreRedacted xs)

  redact_members-HasRedacted : (d : Members) → HasRedacted (redact_members d)
  redact_members-HasRedacted end = tt
  redact_members-HasRedacted (member k v d) = (
    masked_value k (redact_payload v) (redact_payload-IsRedacted v),
    redact_members-HasRedacted d,
  )

-- Nothing stands under a sensitive key of a redacted payload, at any depth, but the mask.
pub redact_payload-no_secret : (v : Json) → IsRedacted (redact_payload v)
redact_payload-no_secret v = redact_payload-IsRedacted v

mutual
  unfolding redact_payload

  redact_twice : (v : Json) → redact_payload (redact_payload v) ≡ redact_payload v
  redact_twice null = refl
  redact_twice (bool b) = refl
  redact_twice (int i) = refl
  redact_twice (real t) = refl
  redact_twice (str t) = refl
  redact_twice (array xs) = ap array (redact_items_twice xs)
  redact_twice (object d) = ap object (redact_members_twice d)

  redact_items_twice : (xs : Items) → redact_items (redact_items xs) ≡ redact_items xs
  redact_items_twice nil = refl
  redact_items_twice (item x xs) = rw (redact_twice x, redact_items_twice xs)

  redact_members_twice : (d : Members) → redact_members (redact_members d) ≡ redact_members d
  redact_members_twice end = refl
  redact_members_twice (member k v d) = ground (arith, redact_twice v, redact_members_twice d)

-- Redacting a redacted payload changes nothing.
redact_payload-idempotent : (v : Json) → redact_payload (redact_payload v) ≡ redact_payload v
redact_payload-idempotent v = redact_twice v
