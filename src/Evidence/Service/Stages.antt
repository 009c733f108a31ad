-- ===== src/Evidence/Service/Stages.antt =====
-- The stages that the stream of events completes.
use freebsd_laboratory.Base.{
  ℕ, Bool, true, false, if◌then◌else◌, ◌⊎◌, List, [], ◌∷◌, ◌++◌, ◌≡◌, refl, ap, ◌∙◌, arith, inl,
  inr, any,
}
use freebsd_laboratory.Base.Text.{Text, text, eq_text}
use freebsd_laboratory.Base.Result.{Result, ok, err, Error, Result-cases}
use freebsd_laboratory.Evidence.Json.{Json}
use freebsd_laboratory.Evidence.Service.{
  Encoders, EvidenceEvent, LabService, Append, record_event, completed_stage, has_kind, explains,
  any_explains, in_stages, Digit,
}
use freebsd_laboratory.Evidence.Service.Stream.{Grown, record_event-Grown}

any-append :
    (p : EvidenceEvent → Bool) (es fs : List EvidenceEvent)
    → any p es ≡ true
    → any p (es ++ fs) ≡ true
any-append p [] fs h = absurd cc
any-append p (e ∷ es) fs h = ground (arith, any-append p es fs)

in_stages-append :
    (stage : Text) (a b : Bool) (es fs : List EvidenceEvent)
    → (a ≡ true → b ≡ true)
    → in_stages stage a es ≡ true
    → in_stages stage b (es ++ fs) ≡ true
unfolding in_stages has_kind
in_stages-append stage a b es fs later h =
    let kept : (kind : Text) → has_kind kind es ≡ true → has_kind kind (es ++ fs) ≡ true =
      λ kind. any-append (λ (e : EvidenceEvent). eq_text e.kind kind) es fs in
    ground (
      arith,
      h,
      later,
      kept (text "cell-executed"),
      kept (text "reproduction-complete"),
      kept (text "mutation-applied"),
      kept (text "verification-complete"),
      kept (text "recovery-complete"),
      kept (text "design-validated"),
    )

-- The rounds before the last are done as before.
any_explains-append :
    (digit : ℕ → Digit) (es : List EvidenceEvent) (e : EvidenceEvent) (b : Bool)
    → any_explains digit es ≡ ok b
    → any_explains digit (es ++ e ∷ []) ≡ (if b then ok true else explains digit e)
unfolding any_explains
any_explains-append digit [] e b h = elim (Result-cases (explains digit e)) [
  | inr (x, bad) ↦ ground (arith, h, bad)
  | inl (true, good) ↦ ground (arith, h, good)
  | inl (false, good) ↦ ground (arith, h, good)
]
any_explains-append digit (d ∷ es) e b h = elim (Result-cases (explains digit d)) [
  | inr (x, bad) ↦ absurd (ground (arith, h, bad))
  | inl (true, good) ↦ ground (arith, h, good)
  | inl (false, good) ↦ rw good (any_explains-append digit es e b (ground (arith, h, good)))
]

module _ (digit : ℕ → Digit) where
  -- A stage stays completed, or the event `e` makes the reading of every stage fail.
  abbrev pub StaysOrFails : Text → Result EvidenceEvent × LabService → Type 0
  StaysOrFails stage (r, t) =
      (completed_stage digit stage t.events ≡ ok true)
      ⊎ ((e : EvidenceEvent) × (x : Error) × (r ≡ ok e)
          × (explains digit e ≡ err x)
          × ((stage' : Text) → completed_stage digit stage' t.events ≡ err x))

  reached :
      (stage : Text) (es : List EvidenceEvent) (e : EvidenceEvent) (fs : List EvidenceEvent)
      (b : Bool)
      → fs ≡ es ++ e ∷ []
      → any_explains digit fs ≡ (if b then ok true else explains digit e)
      → in_stages stage b es ≡ true
      → (completed_stage digit stage fs ≡ ok true)
        ⊎ ((x : Error) × (explains digit e ≡ err x)
            × ((stage' : Text) → completed_stage digit stage' fs ≡ err x))
  unfolding completed_stage
  reached stage es e fs true same added h =
      inl (rw (added, same) (ap ok (in_stages-append stage true true es (e ∷ []) (λ t. t) h)))
  reached stage es e fs false same added h = elim (Result-cases (explains digit e)) [
    | inr (x, bad) ↦ inr (x, bad, λ stage'. rw (added, bad) refl)
    | inl (b, good) ↦ inl (
        rw (added, good, same)
          (ap ok (in_stages-append stage false b es (e ∷ []) (λ t. absurd cc) h)))
  ]

  answered :
      (stage : Text) (e : EvidenceEvent) (t : LabService)
      → (completed_stage digit stage t.events ≡ ok true)
        ⊎ ((x : Error) × (explains digit e ≡ err x)
            × ((stage' : Text) → completed_stage digit stage' t.events ≡ err x))
      → StaysOrFails stage (ok e, t)
  answered stage e t (inl stays) = inl stays
  answered stage e t (inr (x, bad, fails)) = inr (e, x, refl, bad, fails)

  still :
      (enc : Encoders) (stage : Text) (s : LabService) (r : Result EvidenceEvent) (t : LabService)
      → completed_stage digit stage s.events ≡ ok true
      → Grown enc s (r, t)
      → StaysOrFails stage (r, t)
  unfolding completed_stage
  still enc stage s (err x) t h (same, kept) = inl (rw same h)
  still enc stage s (ok e) t h (same, next, room, clean, kept) =
      elim (Result-cases (any_explains digit s.events)) [
        | inr (x, bad) ↦ absurd (ground (arith, bad, h))
        | inl (b, before) ↦
            let added : any_explains digit t.events ≡ (if b then ok true else explains digit e) =
              ap (any_explains digit) same ∙ any_explains-append digit s.events e b before in
            answered stage e t
              (reached stage s.events e t.events b same added (ground (arith, before, h)))
      ]

  -- No recording, whether it succeeds or fails, takes back a stage that was completed, but for one: a
  -- recorded event whose count of cells int() refuses makes the reading of every stage fail.
  pub completed_stage-record_event :
      (enc : Encoders) (now : Text) (io : Append) (kind : Text) (payload : Json)
      (source stage : Text) (s : LabService)
      → completed_stage digit stage s.events ≡ ok true
      → StaysOrFails stage (record_event enc now io kind payload source s)
  completed_stage-record_event enc now io kind payload source stage s h =
      still enc stage s _ _ h (record_event-Grown enc now io kind payload source s)
