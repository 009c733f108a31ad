-- ===== src/Daemon/Create/Jail.antt =====
-- `RuntimeManager.create_jail`.
pub mod Deadlock
pub mod Effect
use freebsd_laboratory.Base.{
  ℕ, Bool, true, false, List, [], ◌∷◌, ◌++◌, Option, none, some, ◌≡◌, refl, if◌then◌else◌,
}
use freebsd_laboratory.Base.Text.{Text, text}
use freebsd_laboratory.Base.Value.{Value, bool, str}
use freebsd_laboratory.Base.Result.{Result, ok, err, Error}
use freebsd_laboratory.Host.{Host, Sys}
use freebsd_laboratory.Daemon.Config.{
  Manager, RuntimeConfig, RuntimeRecord, RuntimeOwner, PeerCredentials, registry_fields,
}
use freebsd_laboratory.Daemon.Names.{validate_name, validate_ssh_public_key}
use freebsd_laboratory.Daemon.Access.{owner_from_peer}
use freebsd_laboratory.Daemon.State.{
  State, Ended, Daemon, pure, raise, attempt, lift, gets, modify, ◌>>=◌, ◌>>◌, with_runtime_lock,
}
use freebsd_laboratory.Daemon.Registry.{write_registry}
use freebsd_laboratory.Daemon.Teardown.{jail_dataset}
use freebsd_laboratory.Daemon.Destroy.{Destroyed, destroy}
use freebsd_laboratory.Daemon.Network.{ensure_bridge, allocate_address, command_unchecked}
use freebsd_laboratory.Daemon.Reconcile.{
  on_exception, reconcile_registered_before_create, reconcile_orphaned_jail_before_create,
}
use freebsd_laboratory.Daemon.Create.JailSteps.{build_jail}
use freebsd_laboratory.Daemon.Create.Reply.{Created}

-- The record of the first registry write, before anything is created.
unfoldable pub jail_record : Text → RuntimeOwner → Text → Text → Text → RuntimeRecord
unfolding text registry_fields
jail_record name owner address dataset jail_root = record (registry_fields owner) {
  name = str name;
  kind = str (text "jail");
  guest_ip = str address;
  dataset = str dataset;
  jail_root = str jail_root;
  jail_created = bool false;
  dataset_created = bool false;
}

module _ {W : Type 0} (m : Manager W) where
  -- str((Path(jail_mount_root) / name).resolve())
  unfoldable pub jail_root_of : Text → Daemon W Text
  jail_root_of name = gets λ s. m.host.resolve (m.config.jail_mount_root ++ (b'/' ∷ name)) s.world

  unfoldable pub jail_reply : Text → Text → Created
  unfolding text
  jail_reply name address = record {
    name = name;
    kind = text "jail";
    profile = none;
    guest_os = none;
    guest_ip = address;
    network_cidr = m.config.network_cidr;
    bridge = m.config.bridge_name;
    interface = m.config.jail_interface_name;
  }

  -- The body of the `try`.
  unfoldable pub jail_attempt : Text → Text → Text → Text → RuntimeRecord → Daemon W Created
  jail_attempt name jail_root address public_key r = do
    built ← lift (build_jail m name (jail_dataset m name) jail_root address public_key r)
    write_registry m built
    pure (jail_reply name address)

  -- From the first registry write on: whatever raises in the `try` tears the runtime down again.
  unfoldable pub launch_jail : Text → RuntimeOwner → Text → Text → Text → Daemon W Created
  launch_jail name owner address jail_root public_key = do
    let r = jail_record name owner address (jail_dataset m name) jail_root
    write_registry m r
    on_exception (jail_attempt name jail_root address public_key r) (destroy m name none true)

  -- Everything behind the checks of the request.
  unfoldable pub create_owned_jail : Text → RuntimeOwner → Text → Daemon W Created
  unfolding text
  create_owned_jail name owner public_key = do
    reconcile_registered_before_create m name owner
    reconcile_orphaned_jail_before_create m name (jail_dataset m name)
    ensure_bridge m
    jail_root ← jail_root_of name
    address ← allocate_address m name
    lift (command_unchecked m (text "arp" ∷ text "-d" ∷ address ∷ []))
    launch_jail name owner address jail_root public_key

  -- The method without its lock.
  unfoldable pub create_jail_held : Text → Value → PeerCredentials → Text → Daemon W Created
  create_jail_held given owner_pid peer ssh_public_key = do
    name ← attempt (validate_name given)
    public_key ← attempt (validate_ssh_public_key m.host.b64decode ssh_public_key)
    owner ← lift (owner_from_peer m.host peer owner_pid)
    create_owned_jail name owner public_key

  unfoldable pub create_jail : Text → Value → PeerCredentials → Text → Daemon W Created
  create_jail name owner_pid peer ssh_public_key =
      with_runtime_lock name (create_jail_held name owner_pid peer ssh_public_key)
