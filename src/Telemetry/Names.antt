-- ===== src/Telemetry/Names.antt =====
-- What a reported name can hold.
use freebsd_laboratory.Base.{
  ◌≤◌, Bool, true, false, [], ◌∷◌, Option, none, some, ◌≡◌, ◌≢◌, refl, arith, all, length,
  Bool-cases, Option-cases, inl, inr, take,
}
use freebsd_laboratory.Base.Text.{Text, eq_text, text, is_lower, is_upper}
use freebsd_laboratory.Evidence.Json.{Json}
use freebsd_laboratory.Telemetry.{
  Recent, is_exception_name, is_name_char, fallback_name, reported_name, raw_name, on_error,
  kernel_error_values, first_observation, header_id, reported, report_if,
}

is_exception_name_sound :
    (t : Text)
    → is_exception_name t ≡ true
    → (all is_name_char t ≡ true) × (length t ≤ 200) × (t ≢ [])
unfolding is_exception_name is_name_char
is_exception_name_sound [] h = absurd cc
is_exception_name_sound (c ∷ s) h = (ground (arith, h), ground (arith, h), λ e. absurd cc)

fallback_name-IsName : is_exception_name fallback_name ≡ true
unfolding is_exception_name fallback_name is_name_char text is_lower is_upper
fallback_name-IsName = refl

reported_name-IsName :
    (show : Json → Text) (ename : Option Json) → is_exception_name (reported_name show ename) ≡ true
unfolding reported_name
reported_name-IsName show ename =
    elim (Bool-cases (is_exception_name (take 200 (raw_name show ename)))) [
      | inl good ↦ rw good good
      | inr bad ↦ rw bad fallback_name-IsName
    ]

-- What a report may hold.
abbrev pub IsSafe : Option Text → Type 0
IsSafe none = Unit
IsSafe (some name) = (all is_name_char name ≡ true) × (length name ≤ 200) × (name ≢ [])

report-IsSafe :
    (first initialized : Bool) (show : Json → Text) (ename : Option Json)
    → IsSafe (report_if first (reported initialized show ename))
unfolding report_if reported
report-IsSafe false initialized show ename = tt
report-IsSafe true false show ename = tt
report-IsSafe true true show ename =
    is_exception_name_sound (reported_name show ename) (reported_name-IsName show ename)

-- Whatever a kernel sends, the one text that a report of its error varies in is a name of one to 200
-- letters, digits, underscores and dots.
pub on_error-IsSafe :
    (initialized : Bool) (show : Json → Text) (channel : Option Text) (header content : Json)
    (r : Recent)
    → IsSafe (on_error initialized show channel header content r).0
unfolding on_error
on_error-IsSafe initialized show none header content r = tt
on_error-IsSafe initialized show (some channel) header content r =
    elim (Bool-cases (eq_text channel (text "iopub"))) [
      | inr other ↦ rw other tt
      | inl iopub ↦ elim (Option-cases (kernel_error_values header content)) [
        | inl nothing ↦ rw (iopub, nothing) tt
        | inr (v, found) ↦
            rw (iopub, found)
              (report-IsSafe (first_observation (header_id header) r).0 initialized show v.0)
      ]
    ]
