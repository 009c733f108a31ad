-- ===== src/Tests/Session.antt =====
-- A session that is started and records two events, of which the second append fails.
use freebsd_laboratory.Base.{◌≤◌, true, List, [], ◌∷◌, some, ◌≡◌, refl, length}
use freebsd_laboratory.Base.Int.{pos}
use freebsd_laboratory.Base.Text.{text}
use freebsd_laboratory.Evidence.Json.{Members, object, str, end, member, get}
use freebsd_laboratory.Evidence.Service.{LabService, appended, not_synced}
use freebsd_laboratory.Evidence.Service.Stream.{IsWellFormed}
use freebsd_laboratory.Bundle.{regular}
use freebsd_laboratory.Export.{Laboratory}
use freebsd_laboratory.Session.{
  Placed, Opening, Recording, lab_service, load_spec, resolve_inside_root, record_all,
  lab_service-record_all,
}
use freebsd_laboratory.Tests.Stream.{demo_encoders}

abbrev lab_spec : Members
lab_spec =
    member (text "schema") (str (text "softcloud.lab/v1"))
      (member (text "id") (str (text "lab")) end)

abbrev lab_place : Placed
lab_place = record { entry = regular (text "lab"); inside = true }

abbrev lab_opening : Opening
lab_opening = record {
  session_id = text "session";
  session_dir = text "/evidence/session";
  creatable = true;
  started_at = text "9:00";
}

abbrev new_laboratory : LabService × Laboratory
new_laboratory = (
  record { max_events = 3; max_event_payload_bytes = 2000; events = []; log = [] },
  record {
    spec = lab_spec;
    lab_file = text "lab";
    session_id = text "session";
    session_dir = text "/evidence/session";
    started_at = text "9:00";
  },
)

abbrev two_recordings : List Recording
two_recordings =
    record {
      now = text "9:30";
      io = appended;
      kind = text "design-validated";
      payload = object end;
      source = text "laboratory-server";
    }
    ∷ record {
      now = text "9:40";
      io = not_synced;
      kind = text "notebook-context";
      payload = object end;
      source = text "jupyterlab-observer";
    }
    ∷ []

lab_service-record_all_example :
    let t = record_all demo_encoders two_recordings new_laboratory.0 in
    IsWellFormed t
    × (pos 3 ≡ pos t.max_events)
    × (length t.events ≤ t.max_events)
    × (1 ≤ t.max_events)
unfolding lab_service load_spec resolve_inside_root get text
lab_service-record_all_example =
    lab_service-record_all demo_encoders (λ bytes. some (object lab_spec)) lab_place (pos 3)
      (pos 2000) lab_opening new_laboratory two_recordings refl
