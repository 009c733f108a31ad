-- ===== src/Tests/Stream.antt =====
-- The properties of the evidence stream and of the connection document at concrete values.
use freebsd_laboratory.Base.{
  ℕ, ◌-◌, ◌==◌, if◌then◌else◌, true, false, [], ◌∷◌, none, some, ◌≡◌, refl, arith,
}
use freebsd_laboratory.Base.Int.{pos}
use freebsd_laboratory.Base.Text.{text, is_upper, is_digit}
use freebsd_laboratory.Evidence.Json.{
  Json, Members, object, str, int, member, end, get, put, remove,
}
use freebsd_laboratory.Evidence.Redact.{
  HasRedacted, redact_payload, is_sensitive, redacted_value, fold_case, sensitive_words,
}
use freebsd_laboratory.Evidence.Service.{
  Encoders, LabService, appended, accepted_payload, record_event, completed_stage, cell_executed,
  minimize_persisted_payload, minimized_payload, minimized_cell, members_of, cell_of, source_text,
  has_kind, cell_key, source_key, sha256_key, bytes_key, store, store_accepted, append_event,
  explains, is_positive_int, any_explains, in_stages, Digit, other, mark, decimal,
}
use freebsd_laboratory.Evidence.Service.Redacted.{HasNoSource, accepted_payload_sound}
use freebsd_laboratory.Evidence.Service.Stream.{
  Recorded, IsWellFormed, record_event-Recorded, record_event-IsWellFormed,
}
use freebsd_laboratory.Evidence.Service.Stages.{StaysOrFails, completed_stage-record_event}
use freebsd_laboratory.Bundle
use freebsd_laboratory.Bundle.{
  Bundle, Readers, regular, verify_artifacts, check_artifact, is_bad_name, wrong_size,
}
use freebsd_laboratory.Bundle.Artifacts.{AllIntact, names, verify_artifacts-AllIntact}
use freebsd_laboratory.Connection.{
  connection_ports, rewrite_document, restore_document, ip_key, connection_port_fields, valid_port,
}
use freebsd_laboratory.Connection.Ports.{restore_document-rewrite_document}

-- A digest that is the text itself, and no parser.
abbrev demo_readers : Readers
demo_readers = record { sha256 = λ b. b; parse = λ b. none }

abbrev demo_bundle : Bundle
demo_bundle = record { is_symlink = false; is_dir = true; entry = λ name. regular (text "abc") }

-- {"evidence.json": {"sha256": "abc", "size": 3}}
abbrev demo_artifacts : Members
demo_artifacts =
    member (text "evidence.json")
      (object (member (text "sha256") (str (text "abc")) (member (text "size") (int (pos 3)) end)))
      end

verify_artifacts-AllIntact_example :
    AllIntact demo_readers demo_bundle demo_artifacts
    × ((text "evidence.json" ∷ []) ≡ names demo_readers demo_bundle demo_artifacts)
unfolding verify_artifacts check_artifact is_bad_name get Bundle.sha256_key Bundle.size_key
    wrong_size text
verify_artifacts-AllIntact_example =
    verify_artifacts-AllIntact demo_readers demo_bundle demo_artifacts (text "evidence.json" ∷ [])
      refl

-- An encoder that keeps little of a document.
abbrev pub demo_encoders : Encoders
demo_encoders = record { canonical_json = λ j. b'x' ∷ []; utf8 = λ t. t; sha256_bytes = λ b. b }

-- {"cell": {"source": "print(1)", "token": "abc"}}
abbrev demo_payload : Json
demo_payload = object (
    member (text "cell")
      (object (
        member (text "source") (str (text "print(1)"))
          (member (text "token") (str (text "abc")) end)))
      end)

-- {"cell": {"token": "[REDACTED]", "source_sha256": "print(1)", "source_bytes": 8}}
abbrev kept_payload : Members
kept_payload =
    member (text "cell")
      (object (
        member (text "token") (str (text "[REDACTED]")) (
          member (text "source_sha256") (str (text "print(1)"))
            (member (text "source_bytes") (int (pos 8)) end))))
      end

abbrev new_session : LabService
new_session = record { max_events = 2; max_event_payload_bytes = 1024; events = []; log = [] }

abbrev observed_session : LabService
observed_session =
    (record_event demo_encoders [] appended cell_executed demo_payload (text "test") new_session).1

accepted_payload_sound_example :
    HasRedacted kept_payload × (cell_executed ≡ cell_executed → HasNoSource kept_payload)
unfolding accepted_payload members_of redact_payload minimize_persisted_payload cell_executed
    minimized_payload cell_of get cell_key is_sensitive source_text source_key put minimized_cell
    remove redacted_value is_upper text fold_case sensitive_words sha256_key bytes_key
accepted_payload_sound_example =
    accepted_payload_sound demo_encoders cell_executed demo_payload 1024 kept_payload refl

record_event-Recorded_example :
    Recorded demo_encoders [] appended cell_executed demo_payload
      (text "test")
      new_session
      (record_event demo_encoders [] appended cell_executed demo_payload (text "test") new_session)
record_event-Recorded_example =
    record_event-Recorded demo_encoders [] appended cell_executed demo_payload (text "test")
      new_session

new_session-IsWellFormed : IsWellFormed new_session
new_session-IsWellFormed = record { bounded = omega arith; numbered = tt; clean = tt }

record_event-IsWellFormed_example : IsWellFormed observed_session
record_event-IsWellFormed_example =
    record_event-IsWellFormed demo_encoders [] appended cell_executed demo_payload (text "test")
      new_session new_session-IsWellFormed

-- The ten ASCII digits, and a superscript.
abbrev ascii_digit : ℕ → Digit
ascii_digit c = if is_digit c then decimal (c - 48) else if c == 178 then mark else other

-- {"markdown_cells": "²"}
abbrev superscript_payload : Json
superscript_payload = object (member (text "markdown_cells") (str (178 ∷ [])) end)

-- The second event makes the first one's stage unreadable.
completed_stage-record_event_example : StaysOrFails ascii_digit (text "observed") (
    record_event demo_encoders [] appended
      (text "notebook-context")
      superscript_payload
      (text "test")
      observed_session)
unfolding record_event completed_stage any_explains in_stages has_kind store_accepted
    accepted_payload members_of redact_payload minimize_persisted_payload cell_executed
    minimized_payload cell_of get cell_key is_sensitive source_text source_key store append_event
    put minimized_cell remove redacted_value is_upper text fold_case sensitive_words sha256_key
    bytes_key explains is_positive_int
completed_stage-record_event_example =
    completed_stage-record_event ascii_digit demo_encoders [] appended (text "notebook-context")
      superscript_payload (text "test") (text "observed") observed_session refl

abbrev demo_document : Members
demo_document = member (text "ip") (str (text "127.0.0.1")) (
    member (text "shell_port") (int (pos 1)) (
      member (text "iopub_port") (int (pos 2)) (
        member (text "stdin_port") (int (pos 3)) (
          member (text "control_port") (int (pos 4)) (member (text "hb_port") (int (pos 5)) end)))))

restore_document-rewrite_document_example :
    get (text "hb_port") (
      restore_document (some (text "127.0.0.1")) (pos 1 ∷ pos 2 ∷ pos 3 ∷ pos 4 ∷ pos 5 ∷ []) (
        rewrite_document
          (text "10.0.0.1")
          (pos 6 ∷ pos 7 ∷ pos 8 ∷ pos 9 ∷ pos 10 ∷ [])
          demo_document))
    ≡ get (text "hb_port") demo_document
unfolding connection_ports get ip_key connection_port_fields valid_port text
restore_document-rewrite_document_example =
    restore_document-rewrite_document (text "127.0.0.1") (text "10.0.0.1") (text "hb_port") (pos 1)
      (pos 2) (pos 3) (pos 4) (pos 5) (pos 6) (pos 7) (pos 8) (pos 9) (pos 10) demo_document refl
      refl
