-- ===== src/Telemetry.antt =====
-- freebsd_laboratory/kernel_telemetry.py, and `capture_kernel_error` of
-- freebsd_laboratory/telemetry.py: which errors of a kernel are reported, and under what name.
-- Whether Sentry is there is a test, and the event is what would be sent.
mod Deque
pub mod History
pub mod Names
use freebsd_laboratory.Base.{
  ℕ, suc, ◌+◌, Bool, true, false, List, [], ◌∷◌, ◌++◌, Option, none, some, not, ◌&&◌, ◌||◌, ◌==◌,
  leb, if◌then◌else◌, is_nil, length, all, take,
}
use freebsd_laboratory.Base.Text.{Text, text, eq_text, member, is_lower, is_upper, is_digit}
use freebsd_laboratory.Evidence.Json.{Json, Members, null, bool, int, real, str, array, object, get}
use freebsd_laboratory.Client.Request.{truthy}

-- The class attributes `_recent_error_ids`, a deque with its newest element first, and
-- `_recent_error_id_set`.
pub record Recent : Type 0 where
  pub maxlen : ℕ
  pub ids : List Text
  pub id_set : List Text

unfoldable pub no_errors : Recent
no_errors = record { maxlen = 1024; ids = []; id_set = [] }

-- `popleft`: the oldest element, and the others; of an empty deque it raises.
unfoldable pub pop_oldest : List Text → Option (Text × List Text)
pop_oldest [] = none
pop_oldest (x ∷ []) = some (x, [])
pop_oldest (x ∷ y ∷ l) = elim (pop_oldest (y ∷ l)) [
  | none ↦ none
  | some (e, rest) ↦ some (e, x ∷ rest)
]

unfoldable pub discard : Text → List Text → List Text
discard e [] = []
discard e (x ∷ s) = let rest = discard e s in if eq_text x e then rest else x ∷ rest

-- The oldest id goes where the deque is full.
unfoldable pub make_room : Recent → Recent
make_room r =
    if length r.ids == r.maxlen
    then elim (pop_oldest r.ids) [
      | none ↦ r
      | some (expired, rest) ↦ record r { ids = rest; id_set = discard expired r.id_set }
    ]
    else r

unfoldable pub remember : Text → Recent → Recent
remember id r = record r { ids = id ∷ r.ids; id_set = id ∷ r.id_set }

unfoldable pub observe_text : Text → Recent → Bool × Recent
observe_text id r =
    if is_nil id
    then (true, r)
    else if member id r.id_set
    then (false, r)
    else (true, remember id (make_room r))

-- `_first_observation` of what stands in a header
unfoldable pub first_observation : Option Json → Recent → Bool × Recent
first_observation (some (str id)) r = observe_text id r
first_observation _ r = (true, r)

is_error : Option Json → Bool
unfolding text
is_error (some (str kind)) = eq_text kind (text "error")
is_error _ = false

-- `_kernel_error_values`: the name and the value, which may be missing.
unfoldable pub kernel_error_values : Json → Json → Option (Option Json × Option Json)
unfolding is_error text
kernel_error_values (object header) (object content) =
    if is_error (get (text "msg_type") header)
    then some (get (text "ename") content, get (text "evalue") content)
    else none
kernel_error_values _ _ = none

unfoldable pub header_id : Json → Option Json
unfolding text
header_id (object header) = get (text "msg_id") header
header_id _ = none

-- [A-Za-z0-9_.]
unfoldable pub is_name_char : ℕ → Bool
is_name_char c = is_lower c || is_upper c || is_digit c || c == b'_' || c == b'.'

-- ^[A-Za-z_][A-Za-z0-9_.]{0,199}$
unfoldable pub is_exception_name : Text → Bool
is_exception_name [] = false
is_exception_name (c ∷ s) =
    (is_lower c || is_upper c || c == b'_') && all is_name_char s && leb (length s) 199

unfoldable pub fallback_name : Text
unfolding text
fallback_name = text "KernelExecutionError"

-- str(error_name or "KernelExecutionError"), where `show` is str() of a value that is no text
unfoldable pub raw_name : (Json → Text) → Option Json → Text
raw_name show none = fallback_name
raw_name show (some (str [])) = fallback_name
raw_name show (some (str (c ∷ s))) = c ∷ s
raw_name show (some v) = if truthy v then show v else fallback_name

-- The type of the exception in the event of `capture_kernel_error`, of which nothing else varies.
unfoldable pub reported_name : (Json → Text) → Option Json → Text
reported_name show ename =
    let raw = take 200 (raw_name show ename) in if is_exception_name raw then raw else fallback_name

-- A report where Sentry is initialised.
unfoldable pub reported : Bool → (Json → Text) → Option Json → Option Text
reported true show ename = some (reported_name show ename)
reported false show ename = none

unfoldable pub report_if : Bool → Option Text → Option Text
report_if true report = report
report_if false report = none

-- `_on_error` behind the server's own handling: the event that is sent, if any
unfoldable pub on_error :
    Bool → (Json → Text) → Option Text → Json → Json → Recent → Option Text × Recent
unfolding reported report_if text
on_error initialized show none header content r = (none, r)
on_error initialized show (some channel) header content r =
    if eq_text channel (text "iopub")
    then elim (kernel_error_values header content) [
      | none ↦ (none, r)
      | some (ename, evalue) ↦
          let (first, r') = first_observation (header_id header) r in
          (report_if first (reported initialized show ename), r')
    ]
    else (none, r)
