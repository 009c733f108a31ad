-- ===== src/Daemon/Create/Bhyve.antt =====
-- `RuntimeManager.create_bhyve`.
pub mod Effect
use freebsd_laboratory.Base.{
  ℕ, Bool, true, false, List, [], ◌∷◌, ◌++◌, Option, none, some, ◌≡◌, refl, if◌then◌else◌,
}
use freebsd_laboratory.Base.Text.{Text, text}
use freebsd_laboratory.Base.Value.{Value, bool, str}
use freebsd_laboratory.Base.Result.{Result, ok, err, Error, value_error, runtime_error}
use freebsd_laboratory.Host.{Host, Sys, file, unlink}
use freebsd_laboratory.Daemon.Config.{
  Manager, RuntimeConfig, RuntimeRecord, RuntimeOwner, PeerCredentials, BhyveGuestProfile,
  registry_fields, bhyve_profile,
}
use freebsd_laboratory.Daemon.Names.{validate_name, validate_ssh_public_key}
use freebsd_laboratory.Daemon.Access.{owner_from_peer}
use freebsd_laboratory.Daemon.State.{
  State, Ended, returned, raised, blocked, Daemon, pure, raise, attempt, lift, gets, modify, ◌>>=◌,
  ◌>>◌, with_runtime_lock,
}
use freebsd_laboratory.Daemon.Registry.{write_registry}
use freebsd_laboratory.Daemon.Teardown.{require_vm_backend, answers}
use freebsd_laboratory.Daemon.Destroy.{Destroyed, destroy}
use freebsd_laboratory.Daemon.Network.{
  ensure_bridge, ensure_vm_switch, allocate_address, command, command_unchecked,
}
use freebsd_laboratory.Daemon.Reconcile.{on_exception, reconcile_registered_before_create}
use freebsd_laboratory.Daemon.Create.BhyveSteps.{build_bhyve, write_runtime_public_key}
use freebsd_laboratory.Daemon.Create.Reply.{Created}

-- The record of the first registry write, before anything is created.
unfoldable pub bhyve_record : Text → Text → BhyveGuestProfile → RuntimeOwner → Text → RuntimeRecord
unfolding text registry_fields
bhyve_record name profile guest owner address = record (registry_fields owner) {
  name = str name;
  kind = str (text "bhyve");
  profile = str profile;
  guest_os = str guest.guest_os;
  guest_ip = str address;
  vm_created = bool false;
}

unfoldable pub known_profile : Option BhyveGuestProfile → Result BhyveGuestProfile
known_profile none = err (value_error "Unknown bhyve guest profile")
known_profile (some guest) = ok guest

module _ {W : Type 0} (m : Manager W) where
  unfoldable pub bhyve_reply : Text → Text → BhyveGuestProfile → Text → Created
  unfolding text
  bhyve_reply name profile guest address = record {
    name = name;
    kind = text "bhyve";
    profile = some profile;
    guest_os = some guest.guest_os;
    guest_ip = address;
    network_cidr = m.config.network_cidr;
    bridge = m.config.bridge_name;
    interface = guest.interface;
  }

  unfoldable pub refuse_existing : Text → Bool → Daemon W (Unit {0})
  refuse_existing name true =
      raise (runtime_error "Refusing to replace existing vm-bhyve guest" (name ∷ []))
  refuse_existing name false = pure tt

  -- Behind the key file: the guest is created, recorded and started.
  unfoldable pub bhyve_attempt :
      Text → Text → BhyveGuestProfile → Text → Text → RuntimeRecord → Daemon W Created
  unfolding text
  bhyve_attempt name profile guest address key_path r = do
    built ← lift (build_bhyve m name guest address key_path r)
    write_registry m built
    lift (command m (m.config.vm_command ∷ text "start" ∷ name ∷ []))
    pure (bhyve_reply name profile guest address)

  -- The `finally` clause: the key file goes, if it is still there. A removal that fails raises.
  unfoldable pub removed : Ended Created → Result (Unit {0}) → State W → Ended Created × State W
  removed other (ok u) s = (other, s)
  removed other (err e) s = (raised e, s)

  unfoldable pub drop_key_file : Text → Ended Created → State W → Ended Created × State W
  unfolding removed
  drop_key_file key_path other s =
      let (r, w) = file m.host (unlink key_path) s.world in
      let gone = removed other r (record s { world = w }) in
      if m.host.is_file key_path s.world then gone else (other, s)

  -- Leaving the `try`: a blocked thread never leaves it.
  unfoldable pub dropped : Text → Ended Created → State W → Ended Created × State W
  unfolding drop_key_file
  dropped key_path blocked s = (blocked, s)
  dropped key_path (raised e) s = drop_key_file key_path (raised e) s
  dropped key_path (returned c) s = drop_key_file key_path (returned c) s

  unfoldable pub with_key_file :
      Text → Text → BhyveGuestProfile → Text → RuntimeRecord → Result Text → Daemon W Created
  unfolding dropped
  with_key_file name profile guest address r (err e) s =
      on_exception (raise e) (destroy m name none true) s
  with_key_file name profile guest address r (ok key_path) s =
      let (ended_with, s') =
        on_exception (bhyve_attempt name profile guest address key_path r)
          (destroy m name none true) s in
      dropped key_path ended_with s'

  -- From the first registry write on.
  unfoldable pub launch_bhyve :
      Text → Text → BhyveGuestProfile → RuntimeOwner → Text → Text → Daemon W Created
  unfolding with_key_file
  launch_bhyve name profile guest owner address public_key = do
    let r = bhyve_record name profile guest owner address
    write_registry m r
    λ s.
        let (key, w) = write_runtime_public_key m name public_key s.world in
        with_key_file name profile guest address r key (record s { world = w })

  -- Everything behind the checks of the request.
  unfoldable pub create_owned_bhyve :
      Text → Text → BhyveGuestProfile → RuntimeOwner → Text → Daemon W Created
  unfolding text refuse_existing
  create_owned_bhyve name profile guest owner public_key = do
    lift (require_vm_backend m)
    reconcile_registered_before_create m name owner
    ensure_bridge m
    ensure_vm_switch m
    there ← lift (answers m (m.config.vm_command ∷ text "info" ∷ name ∷ []))
    refuse_existing name there
    address ← allocate_address m name
    lift (command_unchecked m (text "arp" ∷ text "-d" ∷ address ∷ []))
    launch_bhyve name profile guest owner address public_key

  -- The method without its lock.
  unfoldable pub create_bhyve_held : Text → Value → PeerCredentials → Text → Text → Daemon W Created
  unfolding known_profile
  create_bhyve_held given owner_pid peer ssh_public_key profile = do
    name ← attempt (validate_name given)
    public_key ← attempt (validate_ssh_public_key m.host.b64decode ssh_public_key)
    guest ← attempt (known_profile (bhyve_profile profile))
    owner ← lift (owner_from_peer m.host peer owner_pid)
    create_owned_bhyve name profile guest owner public_key

  unfoldable pub create_bhyve : Text → Value → PeerCredentials → Text → Text → Daemon W Created
  create_bhyve name owner_pid peer ssh_public_key profile =
      with_runtime_lock name (create_bhyve_held name owner_pid peer ssh_public_key profile)
