-- ===== src/Session.antt =====
-- Starting an evidence session: `LabService.__init__`, `_resolve_inside_root`, `_load_spec` and the
-- recordings that follow, in freebsd_laboratory/service.py. The YAML parser is a parameter.
use freebsd_laboratory.Base.{
  ℕ, ◌≤◌, Bool, true, false, not, List, [], ◌∷◌, Option, none, some, ◌≡◌, refl, ap, sym, ◌∙◌, arith,
  inl, inr, length,
}
use freebsd_laboratory.Base.Int.{ℤ, pos, negsuc, le_ℤ}
use freebsd_laboratory.Base.Text.{Text, text, eq_text}
use freebsd_laboratory.Base.Result.{
  Result, ok, err, value_error, os_error, ◌>>=◌, ◌>>◌, raise_if, Result-cases,
}
use freebsd_laboratory.Evidence.Json.{Json, Members, object, str, get}
use freebsd_laboratory.Evidence.Service.{Encoders, LabService, Append, record_event, EvidenceEvent}
use freebsd_laboratory.Evidence.Service.Stream.{
  IsWellFormed, Grown, record_event-IsWellFormed, record_event-Grown,
}
use freebsd_laboratory.Bundle.{Entry, symbolic_link, regular}
use freebsd_laboratory.Export.{Laboratory}

-- What stands at the path of the specification, and whether it is inside the root when resolved.
pub record Placed : Type 0 where
  pub entry : Entry
  pub inside : Bool

-- Whatever the surroundings decide: the id of the session, its directory and the time.
pub record Opening : Type 0 where
  pub session_id : Text
  pub session_dir : Text
  pub creatable : Bool
  pub started_at : Text

is_link : Entry → Bool
is_link symbolic_link = true
is_link _ = false

unfoldable pub resolve_inside_root : Placed → Result Entry
unfolding is_link
resolve_inside_root placed = do
  raise_if (is_link placed.entry) (value_error "lab_path must not be a symbolic link")
  raise_if (not placed.inside) (value_error "Path escapes Jupyter root")
  ok placed.entry

lab_bytes : Entry → Result (List ℕ)
lab_bytes (regular bytes) = ok bytes
lab_bytes _ = err (value_error "lab.yaml must be a regular file")

mapping : Option Json → Result Members
mapping (some (object d)) = ok d
mapping (some _) = err (value_error "lab.yaml must contain a mapping")
mapping none = err (value_error "Invalid lab.yaml")

has_schema : Option Json → Bool
unfolding text
has_schema (some (str t)) = eq_text t (text "softcloud.lab/v1")
has_schema _ = false

has_id : Option Json → Bool
has_id (some (str (c ∷ id))) = true
has_id _ = false

-- `_load_spec`
unfoldable pub load_spec : (List ℕ → Option Json) → List ℕ → Result Members
unfolding mapping has_schema has_id text
load_spec parse bytes = do
  document ← mapping (parse bytes)
  raise_if (not (has_schema (get (text "schema") document)))
      (value_error "Unsupported laboratory schema")
  raise_if (not (has_id (get (text "id") document))) (value_error "Laboratory id is required")
  ok document

at_least : ℕ → ℤ → Result ℕ
at_least n (pos m) =
    raise_if (not (le_ℤ n (pos m))) (value_error "limit is too small") >>= λ passed. ok m
at_least n (negsuc m) = err (value_error "limit is too small")

-- `__init__`: the service without an event, and its laboratory
unfoldable pub lab_service :
    (List ℕ → Option Json) → Placed → ℤ → ℤ → Opening → Result (LabService × Laboratory)
unfolding at_least lab_bytes
lab_service parse placed max_events max_event_payload_bytes opening = do
  events ← at_least 1 max_events
  bytes ← at_least 1024 max_event_payload_bytes
  entry ← resolve_inside_root placed
  lab_file ← lab_bytes entry
  spec ← load_spec parse lab_file
  raise_if (not opening.creatable) os_error
  ok (
    record { max_events = events; max_event_payload_bytes = bytes; events = []; log = [] },
    record {
      spec = spec;
      lab_file = lab_file;
      session_id = opening.session_id;
      session_dir = opening.session_dir;
      started_at = opening.started_at;
    },
  )

-- A call that records an event, and how the append to the log goes.
pub record Recording : Type 0 where
  pub now : Text
  pub io : Append
  pub kind : Text
  pub payload : Json
  pub source : Text

unfoldable pub record_all : Encoders → List Recording → LabService → LabService
record_all enc [] s = s
record_all enc (r ∷ rs) s =
    record_all enc rs (record_event enc r.now r.io r.kind r.payload r.source s).1

record_all-IsWellFormed :
    (enc : Encoders) (rs : List Recording) (s : LabService)
    → IsWellFormed s
    → IsWellFormed (record_all enc rs s)
unfolding record_all
record_all-IsWellFormed enc [] s w = w
record_all-IsWellFormed enc (r ∷ rs) s w =
    record_all-IsWellFormed enc rs _
      (record_event-IsWellFormed enc r.now r.io r.kind r.payload r.source s w)

record_event-max_events :
    (enc : Encoders) (r : Recording) (s : LabService)
    → (record_event enc r.now r.io r.kind r.payload r.source s).1.max_events ≡ s.max_events
record_event-max_events enc r s =
    kept (record_event enc r.now r.io r.kind r.payload r.source s)
      (record_event-Grown enc r.now r.io r.kind r.payload r.source s)
  where
    kept : (x : Result EvidenceEvent × LabService) → Grown enc s x → x.1.max_events ≡ s.max_events
    kept (ok e, t) h = h.4
    kept (err e, t) h = h.1

record_all-max_events :
    (enc : Encoders) (rs : List Recording) (s : LabService)
    → (record_all enc rs s).max_events ≡ s.max_events
unfolding record_all
record_all-max_events enc [] s = refl
record_all-max_events enc (r ∷ rs) s =
    record_all-max_events enc rs _ ∙ record_event-max_events enc r s

at_least_sound : (n m : ℕ) (i : ℤ) → at_least n i ≡ ok m → (i ≡ pos m) × (n ≤ m)
unfolding at_least
at_least_sound n m (pos k) h = ground (arith, h)
at_least_sound n m (negsuc k) h = absurd cc

abbrev fresh : ℕ → ℕ → LabService
fresh n k = record { max_events = n; max_event_payload_bytes = k; events = []; log = [] }

lab_service_sound :
    (parse : List ℕ → Option Json) (placed : Placed) (max_events max_event_payload_bytes : ℤ)
    (opening : Opening) (x : LabService × Laboratory)
    → lab_service parse placed max_events max_event_payload_bytes opening ≡ ok x
    → (n k : ℕ) × (at_least 1 max_events ≡ ok n)
      × (at_least 1024 max_event_payload_bytes ≡ ok k)
      × (fresh n k ≡ x.0)
unfolding lab_service
lab_service_sound parse placed max_events max_event_payload_bytes opening x h =
    elim (Result-cases (at_least 1 max_events)) [
      | inr (e, bad) ↦ absurd (ground (arith, bad, h))
      | inl (n, events) ↦ elim (Result-cases (at_least 1024 max_event_payload_bytes)) [
        | inr (e, bad) ↦ absurd (ground (arith, events, bad, h))
        | inl (k, bytes) ↦ elim (Result-cases (resolve_inside_root placed)) [
          | inr (e, bad) ↦ absurd (ground (arith, events, bytes, bad, h))
          | inl (entry, there) ↦ elim (Result-cases (lab_bytes entry)) [
            | inr (e, bad) ↦ absurd (ground (arith, events, bytes, there, bad, h))
            | inl (file, read) ↦ elim (Result-cases (load_spec parse file)) [
              | inr (e, bad) ↦ absurd (ground (arith, events, bytes, there, read, bad, h))
              | inl (spec, loaded) ↦
                  (n, k, events, bytes, ground (arith, events, bytes, there, read, loaded, h))
            ]
          ]
        ]
      ]
    ]

fresh-IsWellFormed : (n k : ℕ) → IsWellFormed (fresh n k)
fresh-IsWellFormed n k = record { bounded = omega arith; numbered = tt; clean = tt }

-- Whatever is recorded in a session that was started, and however the appends to its log go, the
-- stream is well formed and holds no more events than the limit that was given, which is positive.
pub lab_service-record_all :
    (enc : Encoders) (parse : List ℕ → Option Json) (placed : Placed)
    (max_events max_event_payload_bytes : ℤ) (opening : Opening) (x : LabService × Laboratory)
    (rs : List Recording)
    → lab_service parse placed max_events max_event_payload_bytes opening ≡ ok x
    → let t = record_all enc rs x.0 in
      IsWellFormed t
      × (max_events ≡ pos t.max_events)
      × (length t.events ≤ t.max_events)
      × (1 ≤ t.max_events)
lab_service-record_all enc parse placed max_events max_event_payload_bytes opening x rs h =
    let (n, k, events, bytes, same) =
      lab_service_sound parse placed max_events max_event_payload_bytes opening x h in
    let well = record_all-IsWellFormed enc rs x.0 (rw (← same) (fresh-IsWellFormed n k)) in
    let limit : (record_all enc rs x.0).max_events ≡ n =
      record_all-max_events enc rs x.0 ∙ ap (λ s. s.max_events) (sym same) in
    let given = at_least_sound 1 n max_events events in
    (well, given.0 ∙ ap pos (sym limit), well.bounded, rw limit given.1)
