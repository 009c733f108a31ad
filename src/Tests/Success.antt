-- ===== src/Tests/Success.antt =====
-- A run of `create_jail` that succeeds.
use freebsd_laboratory.Base.{◌≡◌, refl, none}
use freebsd_laboratory.Base.Int.{pos}
use freebsd_laboratory.Base.Text.{text, contains}
use freebsd_laboratory.Base.Split.{words_from, split_lines}
use freebsd_laboratory.Base.PythonInt.{int_of}
use freebsd_laboratory.Base.Ipv4.{address_text, address?}
use freebsd_laboratory.Base.Dict.{lookup, insert}
use freebsd_laboratory.Base.Value.{int}
use freebsd_laboratory.Host.{run, file}
use freebsd_laboratory.Identity.{query_process_identity}
use freebsd_laboratory.Addresses.{allocate}
use freebsd_laboratory.Daemon.Names.{
  is_name_char, runtime_prefix, matches_runtime_name, validate_name, validate_owner_pid,
  validate_ssh_public_key,
}
use freebsd_laboratory.Daemon.State.{unlock, with_runtime_lock, returned}
use freebsd_laboratory.Daemon.Access.{owner_from_peer, owner_alive}
use freebsd_laboratory.Daemon.Registry.{read_entry, load_registry, write_registry, delete_entry}
use freebsd_laboratory.Daemon.Teardown.{
  require_vm_backend, answers, jail_exists, vm_exists, dataset_exists, interface_exists,
}
use freebsd_laboratory.Daemon.Destroy.{destroy}
use freebsd_laboratory.Daemon.Network.{
  command, command_unchecked, configure_bridge, ensure_bridge, configure_vm_switch,
  ensure_vm_switch, take_lease, allocate_address,
}
use freebsd_laboratory.Daemon.Reconcile.{
  reraise, handle_failure, on_exception, reconcile_found, reconcile_registered_before_create,
  reconcile_orphan, reconcile_orphaned_jail_before_create,
}
use freebsd_laboratory.Daemon.Create.JailSteps.{
  passwd_fields, is_inside, epair_of_output, built_jail, unlink_symlink, write_key_files,
  install_for, install_jail_authorized_key, assemble_jail, build_jail,
}
use freebsd_laboratory.Daemon.Create.Jail.{
  jail_record, jail_root_of, jail_reply, jail_attempt, launch_jail, create_owned_jail,
  create_jail_held, create_jail,
}
use freebsd_laboratory.Tests.Demo.{
  demo_host, demo_config, demo, alice_name, demo_key, alice, empty_state,
}

-- On the small host, which has no runtimes, alice's request for a jail returns, with the first
-- address of the pool.
create_jail_returns :
    (create_jail demo alice_name (int (pos 4242)) alice demo_key empty_state).0
    ≡ returned (record {
      name = alice_name;
      kind = text "jail";
      profile = none;
      guest_os = none;
      guest_ip = text "172.31.254.10";
      network_cidr = text "172.31.254.0/24";
      bridge = text "lab0";
      interface = text "lab0";
    })
unfolding contains words_from split_lines int_of address_text address? lookup insert run file
    query_process_identity allocate is_name_char runtime_prefix matches_runtime_name validate_name
    validate_owner_pid validate_ssh_public_key unlock with_runtime_lock owner_from_peer owner_alive
    read_entry load_registry write_registry delete_entry require_vm_backend answers jail_exists
    vm_exists dataset_exists interface_exists destroy command command_unchecked configure_bridge
    ensure_bridge configure_vm_switch ensure_vm_switch take_lease allocate_address reraise
    handle_failure on_exception reconcile_found reconcile_registered_before_create reconcile_orphan
    reconcile_orphaned_jail_before_create passwd_fields is_inside epair_of_output built_jail
    unlink_symlink write_key_files install_for install_jail_authorized_key assemble_jail build_jail
    jail_record jail_root_of jail_reply jail_attempt launch_jail create_owned_jail create_jail_held
    create_jail demo_host demo_config demo alice_name demo_key
create_jail_returns = refl
