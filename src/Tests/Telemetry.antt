-- ===== src/Tests/Telemetry.antt =====
-- The properties of the kernel telemetry at concrete values.
use freebsd_laboratory.Base.{true, [], ◌∷◌, List, Option, none, some, ◌≡◌}
use freebsd_laboratory.Base.Text.{text}
use freebsd_laboratory.Evidence.Json.{Json, str, object, member, end}
use freebsd_laboratory.Telemetry.{first_observation, no_errors, on_error}
use freebsd_laboratory.Telemetry.History.{answers, observe_value, first_observation_refines}
use freebsd_laboratory.Telemetry.Names.{IsSafe, on_error-IsSafe}

abbrev demo_ids : List (Option Json)
demo_ids = some (str (text "a")) ∷ some (str (text "b")) ∷ some (str (text "a")) ∷ none ∷ []

first_observation_refines_example :
    answers first_observation demo_ids no_errors ≡ answers (observe_value 1024) demo_ids []
first_observation_refines_example = first_observation_refines demo_ids

on_error-IsSafe_example :
    IsSafe
      (on_error true
        (λ j. [])
        (some (text "iopub"))
        (object (member (text "msg_type") (str (text "error")) end))
        (object (member (text "ename") (str (text "password=hunter2")) end))
        no_errors).0
on_error-IsSafe_example =
    on_error-IsSafe true (λ j. []) (some (text "iopub"))
      (object (member (text "msg_type") (str (text "error")) end))
      (object (member (text "ename") (str (text "password=hunter2")) end)) no_errors
