-- ===== src/Tests/Deadlock.antt =====
-- Two runs of `create_jail` that wait for ever.
use freebsd_laboratory.Base.{true, List, [], ◌∷◌, some, ◌≡◌, refl}
use freebsd_laboratory.Base.Int.{pos}
use freebsd_laboratory.Base.Text.{Text, text, member}
use freebsd_laboratory.Base.Value.{int, str, eq_int, eq_str}
use freebsd_laboratory.Base.Split.{words_from, is_space, rstrip}
use freebsd_laboratory.Base.PythonInt.{int_of}
use freebsd_laboratory.Base.Dict.{lookup}
use freebsd_laboratory.Base.Result.{ok, runtime_error}
use freebsd_laboratory.Host.{completed, run, checked, file}
use freebsd_laboratory.Identity.{query_process_identity, pid_exists}
use freebsd_laboratory.Daemon.Config.{Manager, RuntimeRecord, RuntimeOwner}
use freebsd_laboratory.Daemon.Names.{
  validate_name, matches_runtime_name, validate_ssh_public_key, validate_owner_pid, runtime_prefix,
  is_name_char, is_ed25519_blob,
}
use freebsd_laboratory.Daemon.Access.{owner_from_peer, record_owned_by}
use freebsd_laboratory.Daemon.State.{State, returned, raised, blocked, document}
use freebsd_laboratory.Daemon.Registry.{
  write_registry, name_text, write_temporary, put_entry, replace_entry, cleaning_up, mkstemp,
}
use freebsd_laboratory.Daemon.Teardown.{jail_dataset}
use freebsd_laboratory.Daemon.Network.{command}
use freebsd_laboratory.Daemon.Create.Jail.{create_jail, launch_jail, jail_attempt, jail_record}
use freebsd_laboratory.Daemon.Create.JailSteps.{build_jail, assemble_jail}
use freebsd_laboratory.Daemon.Create.Jail.Deadlock.{create_jail_own_runtime, launch_jail_failure}
use freebsd_laboratory.Tests.Demo.{
  demo, demo_host, demo_config, alice, alice_name, alice_record, empty_state, demo_key, World,
}

-- The owner that the daemon makes of alice's request, and her runtime's record.
abbrev alice_owner : RuntimeOwner
alice_owner = record {
  pid = pos 4242;
  uid = pos 1001;
  gid = pos 1001;
  started_at = text "Mon Jan 5 10:00:00 2026";
  process_digest = text "1001:Mon Jan 5 10:00:00 2026";
}

abbrev own_record : RuntimeRecord
own_record = record alice_record {
  owner_gid = int (pos 1001);
  owner_process_digest = str (text "1001:Mon Jan 5 10:00:00 2026");
}

abbrev own_state : State World
own_state = record empty_state { registry = (alice_name, document own_record) ∷ [] }

name_matches : matches_runtime_name alice_name ≡ true
unfolding matches_runtime_name alice_name runtime_prefix is_name_char
name_matches = refl

key_passes : validate_ssh_public_key demo_host.b64decode demo_key ≡ ok demo_key
unfolding validate_ssh_public_key demo_key demo_host words_from is_space is_ed25519_blob text
key_passes = refl

alice_known : (owner_from_peer demo_host alice (int (pos 4242)) []).0 ≡ ok alice_owner
unfolding owner_from_peer demo_host validate_owner_pid query_process_identity pid_exists words_from
    int_of
alice_known = refl

registered_own : lookup alice_name own_state.registry ≡ some (document own_record)
unfolding lookup alice_name
registered_own = refl

owned_own : record_owned_by own_record alice_owner ≡ true
unfolding record_owned_by eq_int eq_str text
owned_own = refl

create_jail_own_runtime_example :
    create_jail demo alice_name (int (pos 4242)) alice demo_key own_state ≡ (
      blocked,
      record own_state {
        held = alice_name ∷ [];
        world = (owner_from_peer demo_host alice (int (pos 4242)) []).1;
      },
    )
unfolding demo
create_jail_own_runtime_example =
    create_jail_own_runtime demo alice_name (int (pos 4242)) alice demo_key demo_key alice_owner
      own_record own_state refl name_matches key_passes alice_known registered_own owned_own

-- A host on which every command fails.
unfoldable broken : Manager World
unfolding demo demo_host
broken = record {
  host = record demo_host {
    subprocess = λ argv timeout w.
        (completed (record { returncode = pos 1; stdout = []; stderr = [] }), argv ∷ w);
  };
  config = demo_config;
}

abbrev held_state : State World
held_state = record empty_state { held = alice_name ∷ [] }

abbrev first_record : RuntimeRecord
first_record =
    jail_record alice_name alice_owner (text "172.31.254.10") (jail_dataset broken alice_name)
      (text "/lab/jails/alice")

abbrev after_write : State World
after_write = (write_registry broken first_record held_state).1

abbrev failed_attempt : State World
failed_attempt =
    (jail_attempt broken alice_name (text "/lab/jails/alice") (text "172.31.254.10") demo_key
      first_record after_write).1

written_first : write_registry broken first_record held_state ≡ (returned tt, after_write)
unfolding write_registry broken validate_name matches_runtime_name alice_name runtime_prefix
    is_name_char name_text jail_record write_temporary put_entry replace_entry cleaning_up mkstemp
    file lookup
written_first = refl

-- The clone of the template fails.
abbrev clone_argv : List Text
clone_argv =
    text "zfs"
    ∷ text "clone"
    ∷ text "-o"
    ∷ text "mountpoint=/lab/jails/alice"
    ∷ text "zroot/lab/template@ready"
    ∷ text "zroot/lab/jails/freebsd-lab-alice"
    ∷ []

attempt_fails :
    jail_attempt broken alice_name
      (text "/lab/jails/alice")
      (text "172.31.254.10")
      demo_key
      first_record
      after_write
    ≡ (raised (runtime_error "command failed" clone_argv), failed_attempt)
unfolding jail_attempt build_jail assemble_jail command run checked broken demo_config jail_dataset
    rstrip alice_name text
attempt_fails = refl

still_held : member alice_name failed_attempt.held ≡ true
unfolding jail_attempt build_jail assemble_jail command run checked broken demo_config jail_dataset
    rstrip alice_name text write_registry validate_name matches_runtime_name runtime_prefix
    is_name_char name_text jail_record write_temporary put_entry replace_entry cleaning_up mkstemp
    file lookup
still_held = refl

launch_jail_failure_example :
    launch_jail broken alice_name alice_owner
      (text "172.31.254.10")
      (text "/lab/jails/alice")
      demo_key
      held_state
    ≡ (blocked, failed_attempt)
launch_jail_failure_example =
    launch_jail_failure broken alice_name (text "172.31.254.10") (text "/lab/jails/alice") demo_key
      alice_owner (runtime_error "command failed" clone_argv) held_state after_write failed_attempt
      still_held written_first attempt_fails
