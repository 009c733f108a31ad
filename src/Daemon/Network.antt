-- ===== src/Daemon/Network.antt =====
-- The bridge, the vm-bhyve switch and the address of a new runtime.
use freebsd_laboratory.Base.{Bool, true, false, List, [], ◌∷◌, ◌++◌, some, not, if◌then◌else◌}
use freebsd_laboratory.Base.Text.{Text, text, eq_text, contains}
use freebsd_laboratory.Base.Decimal.{decimal}
use freebsd_laboratory.Base.Ipv4.{address_text}
use freebsd_laboratory.Base.Result.{runtime_error}
use freebsd_laboratory.Host
use freebsd_laboratory.Host.{Host, Completed, Sys, run, succeeded}
use freebsd_laboratory.Addresses.{allocate}
use freebsd_laboratory.Daemon.Config.{Manager}
use freebsd_laboratory.Daemon.State.{
  returned, ended, Daemon, pure, raise, lift, modify, ◌>>=◌, ◌>>◌,
}
use freebsd_laboratory.Daemon.Teardown.{require_vm_backend}
use freebsd_laboratory.Daemon.Destroy.{release_lease}

module _ {W : Type 0} (m : Manager W) where
  -- `self._run(argv)` for its effect
  unfoldable pub command : List Text → Sys W (Unit {0})
  command argv = Host.◌>>=◌ (run m.host argv true (some 60)) λ _. Host.pure tt

  -- `self._run(argv, check=False)` for its effect
  unfoldable pub command_unchecked : List Text → Sys W (Unit {0})
  command_unchecked argv = Host.◌>>=◌ (run m.host argv false (some 60)) λ _. Host.pure tt

  -- inet <host_address> with its space
  expected_address : Text
  unfolding text
  expected_address = text "inet " ++ (m.config.host_address ++ text " ")

  bring_up : Completed → Sys W (Unit {0})
  unfolding text
  bring_up shown =
      if not (contains shown.stdout expected_address)
      then command (
          text "ifconfig"
          ∷ m.config.bridge_name
          ∷ text "inet"
          ∷ (m.config.host_address ++ (b'/' ∷ decimal m.config.prefix_len))
          ∷ text "up"
          ∷ [])
      else command (text "ifconfig" ∷ m.config.bridge_name ∷ text "up" ∷ [])

  show_bridge : Bool → Sys W Completed
  unfolding text
  show_bridge check = run m.host (text "ifconfig" ∷ m.config.bridge_name ∷ []) check (some 60)

  made_bridge : Sys W Completed
  unfolding text
  made_bridge =
      Host.◌>>=◌
        (command (
          text "ifconfig"
          ∷ text "bridge"
          ∷ text "create"
          ∷ text "name"
          ∷ m.config.bridge_name
          ∷ []))
        λ _. show_bridge true

  found_bridge : Completed → Sys W Completed
  found_bridge shown = if succeeded shown then Host.pure shown else made_bridge

  unfoldable pub configure_bridge : Sys W (Unit {0})
  unfolding bring_up show_bridge made_bridge found_bridge expected_address
  configure_bridge =
      Host.◌>>=◌ (show_bridge false)
        λ first. Host.◌>>=◌ (found_bridge first) λ shown. bring_up shown

  -- The shared lock is reentrant, so the thread that calls never waits for itself here.
  unfoldable pub ensure_bridge : Daemon W (Unit {0})
  ensure_bridge s =
      let configured =
        (lift configure_bridge >> modify (λ t. record t { bridge_configured = true })) s in
      if s.bridge_configured then (returned tt, s) else configured

  created_switch : Completed → Sys W (Unit {0})
  unfolding text
  created_switch info =
      if succeeded info
      then Host.pure tt
      else command (
          m.config.vm_command
          ∷ text "switch"
          ∷ text "create"
          ∷ text "-t"
          ∷ text "manual"
          ∷ text "-b"
          ∷ m.config.bridge_name
          ∷ m.config.vm_switch
          ∷ [])

  unfoldable pub configure_vm_switch : Sys W (Unit {0})
  unfolding text created_switch
  configure_vm_switch = Host.◌>>=◌ (require_vm_backend m) λ _.
      Host.◌>>=◌
        (run m.host (m.config.vm_command ∷ text "switch" ∷ text "info" ∷ m.config.vm_switch ∷ [])
          false (some 60))
        λ info. Host.◌>>=◌ (created_switch info) λ _. command (
          m.config.vm_command
          ∷ text "switch"
          ∷ text "private"
          ∷ m.config.vm_switch
          ∷ text "on"
          ∷ [])

  unfoldable pub ensure_vm_switch : Daemon W (Unit {0})
  ensure_vm_switch s =
      let configured =
        (lift configure_vm_switch >> modify (λ t. record t { vm_switch_configured = true })) s in
      if s.vm_switch_configured then (returned tt, s) else configured

  -- self.pool.allocate(name)
  unfoldable pub take_lease : Text → Daemon W Text
  take_lease name s =
      let (r, leases) =
        allocate (λ n. m.host.refuses (address_text n) s.world)
          (λ n. m.host.unwritable (address_text n) s.world) m.config.pool name s.leases in
      (ended r, record s { leases = leases })

  unfoldable pub given_back : Text → Text → Daemon W Text
  given_back name address = do
    release_lease m address name
    raise (runtime_error "Address pool contains the host bridge address" [])

  unfoldable pub refuse_host_address : Text → Text → Daemon W Text
  unfolding given_back
  refuse_host_address name address =
      if eq_text address m.config.host_address then given_back name address else pure address

  -- An address of the pool, but never the one of the host's bridge.
  unfoldable pub allocate_address : Text → Daemon W Text
  unfolding refuse_host_address
  allocate_address name = do address ← take_lease name; refuse_host_address name address
