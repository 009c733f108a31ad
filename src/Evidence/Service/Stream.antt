-- ===== src/Evidence/Service/Stream.antt =====
-- The stream of events as a whole: numbering, bounds, and the stages that it completes.
use freebsd_laboratory.Base.{
  ℕ, ◌+◌, ◌<◌, ◌≤◌, ◌⊎◌, List, [], ◌∷◌, ◌++◌, ◌≡◌, refl, ap, arith, Bool-cases, inl, inr, length,
  leb, All, All-append, length-append,
}
use freebsd_laboratory.Base.Text.{Text}
use freebsd_laboratory.Base.Result.{Result, ok, err, os_error, Result-cases}
use freebsd_laboratory.Evidence.Json.{Json, Members, object}
use freebsd_laboratory.Evidence.Redact.{HasRedacted}
use freebsd_laboratory.Evidence.Service.{
  Encoders, EvidenceEvent, LabService, Append, appended, not_opened, not_synced, accepted_payload,
  record_event, store_accepted, store, append_event, event_line, cell_executed,
}
use freebsd_laboratory.Evidence.Service.Redacted.{HasNoSource, accepted_payload_sound}

-- The events are numbered without a gap.
abbrev pub Numbered : ℕ → List EvidenceEvent → Type 0
Numbered n [] = Unit
Numbered n (e ∷ es) = (e.sequence ≡ n) × Numbered (n + 1) es

-- What is kept of an event holds no secret and no source.
abbrev pub IsClean : EvidenceEvent → Type 0
IsClean e = HasRedacted e.payload × (e.kind ≡ cell_executed → HasNoSource e.payload)

pub record IsWellFormed (s : LabService) : Type 0 where
  pub bounded : length s.events ≤ s.max_events
  pub numbered : Numbered 1 s.events
  pub clean : All IsClean s.events

Numbered-append :
    (n : ℕ) (es : List EvidenceEvent) (e : EvidenceEvent)
    → Numbered n es
    → e.sequence ≡ n + length es
    → Numbered n (es ++ e ∷ [])
Numbered-append n [] e h q = (omega (arith, q), tt)
Numbered-append n (d ∷ es) e (p, h) q = (p, Numbered-append (n + 1) es e h (omega (arith, q)))

module _ (enc : Encoders) where
  -- The event that a recording of an accepted payload makes.
  abbrev pub event_of : Text → Text → Text → Members → LabService → EvidenceEvent
  event_of now kind source payload s = record {
    sequence = length s.events + 1;
    recorded_at = now;
    kind = kind;
    source = source;
    payload_sha256 = enc.sha256_bytes (enc.canonical_json (object payload));
    payload = payload;
  }

  -- The payload that is kept, of a recording under the limit.
  pub record IsAccepted (kind : Text) (payload : Json) (s : LabService) (d : Members) : Type 0 where
    pub accepted : accepted_payload enc kind payload s.max_event_payload_bytes ≡ ok d
    pub room : length s.events < s.max_events

  -- How a recording may end.
  abbrev pub Recorded :
      Text → Append → Text → Json → Text → LabService → Result EvidenceEvent × LabService → Type 0
  Recorded now io kind payload source s (ok e, t) =
      (d : Members) × IsAccepted kind payload s d
      × (io ≡ appended)
      × (e ≡ event_of now kind source d s)
      × IsClean e
      × (t ≡ record s { events = s.events ++ e ∷ []; log = s.log ++ event_line enc e ∷ [] })
  Recorded now io kind payload source s (err x, t) =
      (t ≡ s)
        × ((accepted_payload enc kind payload s.max_event_payload_bytes ≡ err x)
            ⊎ (s.max_events ≤ length s.events)
            ⊎ ((io ≡ not_opened) × (x ≡ os_error)))
      ⊎ ((d : Members) × IsAccepted kind payload s d
          × (io ≡ not_synced)
          × (x ≡ os_error)
          × (t ≡ record s { log = s.log ++ event_line enc (event_of now kind source d s) ∷ [] }))

  append_event-Recorded :
      (now : Text) (io : Append) (kind : Text) (payload : Json) (source : Text) (s : LabService)
      (d : Members)
      → IsAccepted kind payload s d
      → Recorded now io kind payload source s (append_event enc io (event_of now kind source d s) s)
  unfolding append_event
  append_event-Recorded now appended kind payload source s d a = (
    d,
    a,
    refl,
    refl,
    accepted_payload_sound enc kind payload s.max_event_payload_bytes d a.accepted,
    refl,
  )
  append_event-Recorded now not_opened kind payload source s d a =
      inl (refl, inr (inr (refl, refl)))
  append_event-Recorded now not_synced kind payload source s d a = inr (d, a, refl, refl, refl)

  -- A recording that succeeds was given a payload that is accepted while there was room, and adds its
  -- event, with the next number, the time, kind and source of the call, the payload that is kept and
  -- its digest, to the events, and that event's line to the log, and changes nothing else; what it
  -- keeps is clean. One that fails changes nothing, because the payload is refused, or there is no
  -- room, or the log does not open; or the log could not be synced, and then the line of such an event
  -- is added to the log, and nothing else changes.
  pub record_event-Recorded :
      (now : Text) (io : Append) (kind : Text) (payload : Json) (source : Text) (s : LabService)
      → Recorded now io kind payload source s (record_event enc now io kind payload source s)
  unfolding record_event store_accepted store
  record_event-Recorded now io kind payload source s =
      elim (Result-cases (accepted_payload enc kind payload s.max_event_payload_bytes)) [
        | inr (x, bad) ↦ rw bad (inl (refl, inl bad))
        | inl (d, good) ↦ elim (Bool-cases (leb s.max_events (length s.events))) [
          | inl full ↦ rw (good, full) (inl (refl, inr (inl (ground (arith, full)))))
          | inr room ↦
              rw (good, room)
                (append_event-Recorded now io kind payload source s d
                  (record { accepted = good; room = ground (arith, room) }))
        ]
      ]

  -- What a recording does to the events: it adds one that is next and clean, or none.
  abbrev pub Grown : LabService → Result EvidenceEvent × LabService → Type 0
  Grown s (ok e, t) =
      (t.events ≡ s.events ++ e ∷ [])
      × (e.sequence ≡ length s.events + 1)
      × (length s.events < s.max_events)
      × IsClean e
      × (t.max_events ≡ s.max_events)
  Grown s (err x, t) = (t.events ≡ s.events) × (t.max_events ≡ s.max_events)

  Recorded-Grown :
      (now : Text) (io : Append) (kind : Text) (payload : Json) (source : Text) (s : LabService)
      (r : Result EvidenceEvent) (t : LabService)
      → Recorded now io kind payload source s (r, t)
      → Grown s (r, t)
  Recorded-Grown now io kind payload source s (ok e) t (d, a, put, made, clean, same) = (
    ap (λ u. u.events) same,
    ap (λ v. v.sequence) made,
    a.room,
    clean,
    ap (λ u. u.max_events) same,
  )
  Recorded-Grown now io kind payload source s (err x) t (inl (same, why)) =
      (ap (λ u. u.events) same, ap (λ u. u.max_events) same)
  Recorded-Grown now io kind payload source s (err x) t (inr (d, a, put, failed, same)) =
      (ap (λ u. u.events) same, ap (λ u. u.max_events) same)

  pub record_event-Grown :
      (now : Text) (io : Append) (kind : Text) (payload : Json) (source : Text) (s : LabService)
      → Grown s (record_event enc now io kind payload source s)
  record_event-Grown now io kind payload source s =
      Recorded-Grown now io kind payload source s _ _
        (record_event-Recorded now io kind payload source s)

  Grown-IsWellFormed :
      (s : LabService) (r : Result EvidenceEvent) (t : LabService)
      → IsWellFormed s
      → Grown s (r, t)
      → IsWellFormed t
  Grown-IsWellFormed s (ok e) t w (ev, n, b, c, mx) = record {
    bounded = rw (ev, mx, length-append s.events (e ∷ [])) (omega (arith, b));
    numbered = rw ev (Numbered-append 1 s.events e w.numbered (omega (arith, n)));
    clean = rw ev (All-append IsClean s.events (e ∷ []) w.clean (c, tt));
  }
  Grown-IsWellFormed s (err x) t w (ev, mx) = record {
    bounded = rw (ev, mx) w.bounded;
    numbered = rw ev w.numbered;
    clean = rw ev w.clean;
  }

  -- Recording keeps the stream well formed: at most `max_events` events, numbered from 1 without a
  -- gap, each with nothing but the mask under a sensitive key and no source in an executed cell.
  pub record_event-IsWellFormed :
      (now : Text) (io : Append) (kind : Text) (payload : Json) (source : Text) (s : LabService)
      → IsWellFormed s
      → IsWellFormed (record_event enc now io kind payload source s).1
  record_event-IsWellFormed now io kind payload source s w =
      Grown-IsWellFormed s _ _ w (record_event-Grown now io kind payload source s)
