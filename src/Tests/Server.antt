-- ===== src/Tests/Server.antt =====
-- The properties of the runtime daemon at concrete requests.
use freebsd_laboratory.Base.{true, false, [], none, some, ◌≡◌, ◌≢◌, refl, ◌⊎◌, ◌↔◌}
use freebsd_laboratory.Base.Int.{pos, le_ℤ}
use freebsd_laboratory.Base.Text.{text}
use freebsd_laboratory.Base.Value.{int, str, null}
use freebsd_laboratory.Base.Result.{ok, permission_error}
use freebsd_laboratory.Base.Split.{words_from}
use freebsd_laboratory.Base.PythonInt.{int_of}
use freebsd_laboratory.Base.Dict.{lookup}
use freebsd_laboratory.Daemon.Config.{RuntimeOwner}
use freebsd_laboratory.Daemon.State.{raised}
use freebsd_laboratory.Daemon.Names.{
  runtime_name, validate_name, matches_runtime_name, is_name_char,
}
use freebsd_laboratory.Daemon.Access.{
  authorize_record, authorize_record_iff, owner_from_peer, owner_from_peer_sound,
}
use freebsd_laboratory.Identity.{query_process_identity, pid_exists}
use freebsd_laboratory.Daemon.Names.{validate_owner_pid, validate_name-runtime_name, runtime_prefix}
use freebsd_laboratory.Daemon.Destroy.{destroy}
use freebsd_laboratory.Daemon.Destroy.Effect.{Effect, destroy-Effect, destroy_refused}
use freebsd_laboratory.Daemon.Create.Effect.{Locked}
use freebsd_laboratory.Daemon.Create.Jail.{create_jail}
use freebsd_laboratory.Daemon.Create.Jail.Effect.{create_jail-Locked}
use freebsd_laboratory.Daemon.Create.Bhyve.{create_bhyve}
use freebsd_laboratory.Daemon.Create.Bhyve.Effect.{create_bhyve-Locked, CanRemove}
use freebsd_laboratory.Daemon.Gc.{gc}
use freebsd_laboratory.Daemon.Handler.{Request, Line, handle}
use freebsd_laboratory.Daemon.Isolation.{Keeps, destroy-Keeps}
use freebsd_laboratory.Daemon.Isolation.Collect.{gc-Keeps}
use freebsd_laboratory.Daemon.Isolation.Serve.{handle-Keeps}
use freebsd_laboratory.Tests.Demo.{
  demo, demo_host, alice, bob, alice_name, alice_record, alice_state, empty_state, demo_key,
}

-- Bob asks for alice's runtime to be destroyed.
abbrev destroy_request : Request
destroy_request = record {
  action = str (text "destroy");
  name = str alice_name;
  owner_pid = null;
  ssh_public_key = null;
  profile = none;
  stale_only = none;
}

demo-CanRemove : CanRemove demo
unfolding demo demo_host
demo-CanRemove path w h = refl

not_bobs : authorize_record alice_record (some (pos 1002)) ≢ ok tt
unfolding authorize_record
not_bobs h = absurd cc

kept_before : Keeps alice_name alice_record alice_state
unfolding lookup alice_name
kept_before = refl

handle-Keeps_example :
    Keeps alice_name alice_record
      (handle demo (ok bob) (Line.request 40 destroy_request) alice_state).1
handle-Keeps_example =
    handle-Keeps demo alice_name alice_record bob (Line.request 40 destroy_request) alice_state
      demo-CanRemove not_bobs kept_before

destroy-Keeps_example :
    Keeps alice_name alice_record (destroy demo alice_name (some (pos 1002)) false alice_state).1
destroy-Keeps_example =
    destroy-Keeps demo alice_name alice_name (some (pos 1002)) alice_record alice_state not_bobs
      kept_before

gc-Keeps_example : Keeps alice_name alice_record (gc demo false (pos 1002) alice_state).1
gc-Keeps_example =
    gc-Keeps demo alice_name alice_record (pos 1002) false alice_state not_bobs kept_before

destroy_refused_example :
    destroy demo alice_name (some (pos 1002)) false alice_state
    ≡ (raised (permission_error "Runtime is owned by another Unix user"), alice_state)
unfolding lookup alice_name authorize_record matches_runtime_name runtime_prefix is_name_char
destroy_refused_example =
    destroy_refused demo alice_name (some (pos 1002)) alice_record
      (permission_error "Runtime is owned by another Unix user") alice_state refl refl refl refl

destroy-Effect_example :
    Effect demo alice_name
      (some (pos 1001))
      false
      alice_state
      (destroy demo alice_name (some (pos 1001)) false alice_state)
destroy-Effect_example = destroy-Effect demo alice_name (some (pos 1001)) false alice_state

create_jail-Locked_example :
    Locked alice_name alice empty_state
      (create_jail demo alice_name (int (pos 4242)) alice demo_key empty_state).0
      (create_jail demo alice_name (int (pos 4242)) alice demo_key empty_state).1
create_jail-Locked_example =
    create_jail-Locked demo alice_name (int (pos 4242)) alice demo_key empty_state

create_bhyve-Locked_example :
    Locked alice_name alice empty_state
      (create_bhyve demo alice_name
        (int (pos 4242))
        alice
        demo_key
        (text "linux-python")
        empty_state).0
      (create_bhyve demo alice_name
        (int (pos 4242))
        alice
        demo_key
        (text "linux-python")
        empty_state).1
create_bhyve-Locked_example =
    create_bhyve-Locked demo alice_name (int (pos 4242)) alice demo_key (text "linux-python")
      empty_state demo-CanRemove

authorize_record_iff_example :
    (authorize_record alice_record (some (pos 1002)) ≡ ok tt)
    ↔ ((pos 1002 ≡ pos 0) ⊎ ((le_ℤ 0 (pos 1002) ≡ true) × (int (pos 1001) ≡ int (pos 1002))))
authorize_record_iff_example = authorize_record_iff alice_record (pos 1002)

abbrev demo_owner : RuntimeOwner
demo_owner = record {
  pid = pos 4242;
  uid = pos 1001;
  gid = pos 1001;
  started_at = text "Mon Jan 5 10:00:00 2026";
  process_digest = text "1001:Mon Jan 5 10:00:00 2026";
}

owner_from_peer_sound_example :
    (int (pos 4242) ≡ int (pos 4242))
    × (le_ℤ 2 (pos 4242) ≡ true)
    × (pos 4242 ≡ pos 4242)
    × (pos 1001 ≡ pos 1001)
    × (pos 1001 ≡ pos 1001)
unfolding owner_from_peer demo_host validate_owner_pid query_process_identity pid_exists words_from
    int_of
owner_from_peer_sound_example =
    owner_from_peer_sound demo_host alice (int (pos 4242)) [] demo_owner refl

validate_name-runtime_name_example :
    validate_name (text "freebsd-lab-9f3ac1b2") ≡ ok (text "freebsd-lab-9f3ac1b2")
unfolding runtime_name runtime_prefix text
validate_name-runtime_name_example =
    validate_name-runtime_name (text "9F3a-C1b2") (text "freebsd-lab-9f3ac1b2") refl
