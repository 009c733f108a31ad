-- ===== src/Evidence/Service.antt =====
-- `minimize_persisted_payload` and the recording methods of `LabService`. The JSON encoder, UTF-8
-- and SHA-256 are parameters; the clock and the file system are inputs of each call.
pub mod Redacted
pub mod Stream
pub mod Stages
use freebsd_laboratory.Base.{
  ◌*◌, ℕ, ◌+◌, ◌<◌, ◌≤◌, Bool, true, false, List, [], ◌∷◌, ◌++◌, Option, none, some, ◌≡◌, refl, not,
  ◌&&◌, ◌||◌, ◌==◌, if◌then◌else◌, length, leb, ltb, is_nil, all, any,
}
use freebsd_laboratory.Base.Int.{ℤ, pos, negsuc, le_ℤ}
use freebsd_laboratory.Base.Text.{Text, text, eq_text, member, is_digit}
use freebsd_laboratory.Base.Decimal.{value_from}
use freebsd_laboratory.Base.Result.{
  Result, ok, err, Error, value_error, os_error, ◌>>=◌, ◌>>◌, raise_if,
}
use freebsd_laboratory.Evidence.Json
use freebsd_laboratory.Evidence.Json.{
  Json, Items, Members, object, array, str, int, nil, item, end, get, put, remove,
}
use freebsd_laboratory.Evidence.Redact.{redact_payload}

-- "".join(source), where every part is a str
joined : Items → Result Text
joined nil = ok []
joined (item (str t) xs) = elim (joined xs) [ ok s ↦ ok (t ++ s) | err e ↦ err e ]
joined (item _ xs) = err (value_error "Cell source list must contain only strings")

unfoldable pub source_text : Option Json → Result Text
unfolding joined
source_text none = ok []
source_text (some (array xs)) = joined xs
source_text (some (str t)) = ok t
source_text (some _) = err (value_error "Cell source must be a string or string list")

unfoldable pub cell_of : Option Json → Result Members
cell_of (some (object cell)) = ok cell
cell_of _ = err (value_error "cell-executed payload requires a cell object")

-- The keys, shut.
unfoldable pub cell_key : Text
unfolding text
cell_key = text "cell"

unfoldable pub source_key : Text
unfolding text
source_key = text "source"

unfoldable pub sha256_key : Text
unfolding text
sha256_key = text "source_sha256"

unfoldable pub bytes_key : Text
unfolding text
bytes_key = text "source_bytes"

unfoldable pub cell_executed : Text
unfolding text
cell_executed = text "cell-executed"

-- json.dumps as `canonical_json` calls it, str.encode and hashlib.sha256(…).hexdigest()
pub record Encoders : Type 0 where
  pub canonical_json : Json → List ℕ
  pub utf8 : Text → List ℕ
  pub sha256_bytes : List ℕ → Text

pub record EvidenceEvent : Type 0 where
  pub sequence : ℕ
  pub recorded_at : Text
  pub kind : Text
  pub source : Text
  pub payload_sha256 : Text
  pub payload : Members

-- asdict(event)
unfoldable pub as_dict : EvidenceEvent → Json
unfolding text
as_dict e = object (
    Json.member (text "sequence") (int (pos e.sequence)) (
      Json.member (text "recorded_at") (str e.recorded_at) (
        Json.member (text "kind") (str e.kind) (
          Json.member (text "source") (str e.source) (
            Json.member (text "payload_sha256") (str e.payload_sha256)
              (Json.member (text "payload") (object e.payload) end))))))

-- How the append to the log went: the line may be there although the call raises.
pub data Append : Type 0 where
  appended not_opened not_synced : Append

pub record LabService : Type 0 where
  pub max_events : ℕ
  pub max_event_payload_bytes : ℕ
  pub events : List EvidenceEvent
  pub log : List (List ℕ)

unfoldable pub client_event_kinds : List Text
unfolding text
client_event_kinds = text "cell-executed" ∷ text "notebook-context" ∷ []

unfoldable pub machine_event_kinds : List Text
unfolding text
machine_event_kinds =
    text "reproduction-complete"
    ∷ text "mutation-applied"
    ∷ text "verification-complete"
    ∷ text "recovery-complete"
    ∷ text "design-validated"
    ∷ []

unfoldable pub members_of : Json → Result Members
members_of (object d) = ok d
members_of _ = err (value_error "Event payload must be a mapping")

module _ (enc : Encoders) where
  -- The cell without its source, and with the source's digest and length.
  unfoldable pub minimized_cell : Text → Members → Members
  minimized_cell source cell =
      put bytes_key (int (pos (length (enc.utf8 source))))
        (put sha256_key (str (enc.sha256_bytes (enc.utf8 source))) (remove source_key cell))

  unfoldable pub minimized_payload : Members → Result Members
  minimized_payload payload = do
    cell ← cell_of (get cell_key payload)
    source ← source_text (get source_key cell)
    ok (put cell_key (object (minimized_cell source cell)) payload)

  unfoldable pub minimize_persisted_payload : Text → Members → Result Members
  minimize_persisted_payload kind payload =
      if eq_text kind cell_executed then minimized_payload payload else ok payload

  -- The payload as it is kept, if it passes the checks before the lock.
  unfoldable pub accepted_payload : Text → Json → ℕ → Result Members
  accepted_payload kind payload limit = do
    given ← members_of payload
    redacted ← members_of (redact_payload payload)
    raise_if (ltb limit (length (enc.canonical_json (object redacted))))
        (value_error "Event payload exceeds the byte limit")
    minimize_persisted_payload kind redacted

  unfoldable pub event_line : EvidenceEvent → List ℕ
  event_line e = enc.canonical_json (as_dict e) ++ 10 ∷ []

  unfoldable pub append_event :
      Append → EvidenceEvent → LabService → Result EvidenceEvent × LabService
  append_event appended e s =
      (ok e, record s { events = s.events ++ e ∷ []; log = s.log ++ event_line e ∷ [] })
  append_event not_opened e s = (err os_error, s)
  append_event not_synced e s = (err os_error, record s { log = s.log ++ event_line e ∷ [] })

  -- The part of `_record` under the lock.
  unfoldable pub store :
      Text → Append → Text → Text → Members → LabService → Result EvidenceEvent × LabService
  store now io kind source payload s =
      let event : EvidenceEvent = record {
        sequence = length s.events + 1;
        recorded_at = now;
        kind = kind;
        source = source;
        payload_sha256 = enc.sha256_bytes (enc.canonical_json (object payload));
        payload = payload;
      } in
      if leb s.max_events (length s.events)
      then (err (value_error "Evidence session reached its event limit"), s)
      else append_event io event s

  unfoldable pub store_accepted :
      Text → Append → Text → Text → Result Members → LabService → Result EvidenceEvent × LabService
  store_accepted now io kind source (err e) s = (err e, s)
  store_accepted now io kind source (ok payload) s = store now io kind source payload s

  -- `_record`
  unfoldable pub record_event :
      Text → Append → Text → Json → Text → LabService → Result EvidenceEvent × LabService
  record_event now io kind payload source s =
      store_accepted now io kind source (accepted_payload kind payload s.max_event_payload_bytes) s

  unfoldable pub record_client_event :
      Text → Append → Text → Json → LabService → Result EvidenceEvent × LabService
  unfolding text
  record_client_event now io kind payload s =
      let recorded = record_event now io kind payload (text "jupyterlab-observer") s in
      if not (member kind client_event_kinds)
      then (err (value_error "Client event kind is not allowed"), s)
      else recorded

  unfoldable pub record_machine_event :
      Text → Append → Text → Json → LabService → Result EvidenceEvent × LabService
  unfolding text
  record_machine_event now io kind payload s =
      let recorded = record_event now io kind payload (text "laboratory-server") s in
      if not (member kind machine_event_kinds)
      then (err (value_error "Machine event kind is not allowed"), s)
      else recorded

-- What Python's tables say of a character: no digit, a digit that int() refuses such as a superscript,
-- or a decimal digit.
pub data Digit : Type 0 where
  other mark : Digit
  decimal : ℕ → Digit

abbrev is_digit_or_mark : Digit → Bool
is_digit_or_mark other = false
is_digit_or_mark mark = true
is_digit_or_mark (decimal d) = true

abbrev is_mark : Digit → Bool
is_mark mark = true
is_mark _ = false

abbrev digit_value : Digit → ℕ
digit_value (decimal d) = d
digit_value _ = 0

abbrev value_of : (ℕ → Digit) → ℕ → Text → ℕ
value_of digit n [] = n
value_of digit n (c ∷ s) = value_of digit (10 * n + digit_value (digit c)) s

-- int(s) > 0 of a text for which s.isdigit()
abbrev is_positive_text : (ℕ → Digit) → Text → Result Bool
is_positive_text digit s =
    if any (λ c. is_mark (digit c)) s || ltb 4300 (length s)
    then err (value_error "invalid literal for int()")
    else ok (leb 1 (value_of digit 0 s))

unfoldable pub is_positive_int : (ℕ → Digit) → Option Json → Result Bool
is_positive_int digit (some (int i)) = ok (le_ℤ 1 i)
is_positive_int digit (some (str s)) =
    if not (is_nil s) && all (λ c. is_digit_or_mark (digit c)) s
    then is_positive_text digit s
    else ok false
is_positive_int digit _ = ok false

unfoldable pub has_kind : Text → List EvidenceEvent → Bool
has_kind kind events = any (λ (e : EvidenceEvent). eq_text e.kind kind) events

unfoldable pub explains : (ℕ → Digit) → EvidenceEvent → Result Bool
unfolding text
explains digit e =
    if eq_text e.kind (text "notebook-context")
    then is_positive_int digit (get (text "markdown_cells") e.payload)
    else ok false

-- `any` over the events, which stops at the first that explains and passes an exception on
unfoldable pub any_explains : (ℕ → Digit) → List EvidenceEvent → Result Bool
any_explains digit [] = ok false
any_explains digit (e ∷ es) =
    let rest = any_explains digit es in
    explains digit e >>= λ found. if found then ok true else rest

-- `stage in completed`
unfoldable pub in_stages : Text → Bool → List EvidenceEvent → Bool
unfolding text
in_stages stage explained events =
    (eq_text stage (text "observed") && has_kind (text "cell-executed") events)
    || (eq_text stage (text "explained") && explained)
    || (eq_text stage (text "reproduced") && has_kind (text "reproduction-complete") events)
    || (eq_text stage (text "modified") && has_kind (text "mutation-applied") events)
    || (eq_text stage (text "verified") && has_kind (text "verification-complete") events)
    || (eq_text stage (text "recovered") && has_kind (text "recovery-complete") events)
    || (eq_text stage (text "designed") && has_kind (text "design-validated") events)

-- `stage in self._completed_stages()`
unfoldable pub completed_stage : (ℕ → Digit) → Text → List EvidenceEvent → Result Bool
completed_stage digit stage events =
    any_explains digit events >>= λ explained. ok (in_stages stage explained events)
