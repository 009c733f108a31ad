-- ===== src/Provisioner/Launch.antt =====
-- `pre_launch`, `launch_kernel` and `cleanup`.
use freebsd_laboratory.Base.{
  Bool, true, false, List, [], ◌∷◌, ◌++◌, Option, none, some, not, if◌then◌else◌, map,
}
use freebsd_laboratory.Base.Int.{ℤ, pos}
use freebsd_laboratory.Base.Text.{Text, text}
use freebsd_laboratory.Base.Shell.{shell_quote}
use freebsd_laboratory.Base.Result.{Result, ok, err, runtime_error, os_error, raise_if}
use freebsd_laboratory.Host.{pure, ◌>>=◌, ◌>>◌}
use freebsd_laboratory.Identity.{join_words}
use freebsd_laboratory.Evidence.Json.{Json, Members, str, get}
use freebsd_laboratory.Connection.{
  ip_key, connection_ports, tunnel_ports, rewrite_document, restore_document, remote_kernel_command,
}
use freebsd_laboratory.PortLeases
use freebsd_laboratory.PortLeases.{PortPool, Reserved, port_pool}
use freebsd_laboratory.Transport.{SshTransport, assert_available, command}
use freebsd_laboratory.Transport.Wait.{wait_until_ready, stage}
use freebsd_laboratory.Provisioner.Session.{
  Session, Setting, Prov, Reservation, act, outcome, update, on_exception, finally,
}
use freebsd_laboratory.Provisioner.Runtime.{create_runtime, destroy_runtime, transport}

unfoldable pub loopback : Text
unfolding text
loopback = text "127.0.0.1"

-- What `rewrite_connection_file` has read of the document before it writes it.
pub record Rewriting : Type 0 where
  pub ip : Text
  pub before : List ℤ
  pub ports : List ℤ

unfoldable pub rewriting_of : Text → Result (List ℤ) → Result (List ℤ) → Result Rewriting
rewriting_of ip (ok before) (ok ports) = ok (record { ip = ip; before = before; ports = ports })
rewriting_of ip (ok before) (err e) = err e
rewriting_of ip (err e) ports = err e

-- Whether the connection document or the guest is ready first.
pub data Order : Type 0 where
  prepared_first waited_first : Order

module _ {W : Type 0} (setting : Setting W) where
  -- str(document.get("ip", parent.ip))
  unfoldable pub original_ip_of : Text → Option Json → Text
  original_ip_of parent_ip none = parent_ip
  original_ip_of parent_ip (some (str ip)) = ip
  original_ip_of parent_ip (some v) = setting.show v

  unfoldable pub read_rewriting : List ℤ → Session W → Result Rewriting
  read_rewriting ports s =
      rewriting_of (original_ip_of s.parent_ip (get ip_key s.document))
        (connection_ports s.document) (tunnel_ports (some ports) [])

  -- The parent's address changes before the document is replaced.
  unfoldable pub write_rewriting : Rewriting → Prov W (Unit {0})
  write_rewriting r s =
      let (done, w') = setting.replace_document s.world in
      if done
      then (
        ok tt,
        record s {
          parent_ip = loopback;
          world = w';
          document = rewrite_document loopback r.ports s.document;
        },
      )
      else (err os_error, record s { parent_ip = loopback; world = w' })

  unfoldable pub write_and_return : Rewriting → Prov W Rewriting
  write_and_return r = write_rewriting r >>= λ _. pure r

  unfoldable pub read_and_write : List ℤ → Unit {0} → Prov W Rewriting
  read_and_write ports passed = (λ s. (read_rewriting ports s, s)) >>= write_and_return

  -- `rewrite_connection_file`
  unfoldable pub rewrite_connection : List ℤ → Prov W Rewriting
  rewrite_connection ports = act (λ w. (setting.rewritable w, w)) >>= read_and_write ports

  unfoldable pub restored : Bool → Bool → Option Text → List ℤ → Members → Members
  restored true true ip ports document = restore_document ip ports document
  restored _ _ ip ports document = document

  -- `restore_connection_file`, which fails in silence
  unfoldable pub restore_connection : Option Text → List ℤ → Session W → Session W
  unfolding restored
  restore_connection original_ip original_ports s =
      let (done, w') = setting.replace_document s.world in
      record s {
        parent_ip = elim original_ip [ none ↦ s.parent_ip | some original ↦ original ];
        document = restored (setting.restorable s.world) done original_ip original_ports s.document;
        world = if setting.restorable s.world then w' else s.world;
      }

  return_ports : List ℤ → W → W
  return_ports [] w = w
  return_ports (p ∷ ps) w = return_ports ps (setting.return_port p w)

  -- `release_jupyter_cached_ports`
  unfoldable pub release_cached_ports : List ℤ → Prov W (Unit {0})
  unfolding return_ports
  release_cached_ports ports = update λ s. record s {
    world = if s.ports_cached then return_ports ports s.world else s.world;
    ports_cached = false;
  }

  unfoldable pub reserve_ports : Text → PortPool → Prov W Reserved
  reserve_ports name pool s =
      let (r, leases', w') =
        PortLeases.allocate setting.ports pool name setting.traits.pid 5 s.leases s.world in
      (r, record s { leases = leases'; world = w' })

  unfoldable pub keep_reservation : Text → Reserved → Prov W (Unit {0})
  keep_reservation name reserved = update λ s. record s {
    reservation =
        some (record { owner = name; pid = setting.traits.pid; reserved = reserved; bound = true });
  }

  unfoldable pub keep_rewriting : Rewriting → Prov W (Unit {0})
  keep_rewriting r =
      update
        λ s. record s { original_ip = some r.ip; original_ports = r.before; tunnel_ports = r.ports }

  unfoldable pub keep_and_release : Rewriting → Prov W (List ℤ)
  keep_and_release r = do keep_rewriting r; release_cached_ports r.before; pure r.ports

  unfoldable pub rewrite_for : Text → Reserved → Prov W (List ℤ)
  rewrite_for name reserved = do
    keep_reservation name reserved
    rewrite_connection (map pos reserved.ports) >>= keep_and_release

  unfoldable pub prepare_in : Text → PortPool → Prov W (List ℤ)
  prepare_in name pool = reserve_ports name pool >>= rewrite_for name

  -- `_prepare_connection`
  unfoldable pub prepare_connection : Text → Prov W (List ℤ)
  prepare_connection name =
      outcome (port_pool setting.traits.tunnel_port_start setting.traits.tunnel_port_end)
      >>= prepare_in name

  -- The restoring where there is a parent, and the forgetting of what was restored.
  unfoldable pub restore_and_forget : Session W → Session W
  restore_and_forget s =
      record (if setting.traits.has_parent
        then restore_connection s.original_ip s.original_ports s
        else s) { original_ip = none; original_ports = [] }

  -- What ends every failed launch, and every kernel.
  unfoldable pub recover : Prov W (Unit {0})
  recover = do update restore_and_forget; destroy_runtime setting

  -- The fuel of the wait is enough, so that there is no other end.
  waited : Option (Result (Unit {0})) → Result (Unit {0})
  waited none = err (runtime_error "Out of fuel" [])
  waited (some r) = r

  unfoldable pub wait : SshTransport → Prov W (Unit {0})
  unfolding waited
  wait t = act λ w.
      let (r, w') = wait_until_ready setting.net t setting.traits.startup_timeout w in
      (waited r, w')

  named : Option Text → Result Text
  named none = err (runtime_error "Kernel manager or runtime name is unavailable" [])
  named (some name) =
      if setting.traits.has_parent
      then ok name
      else err (runtime_error "Kernel manager or runtime name is unavailable" [])

  -- The launch up to its two concurrent tasks: the transport and the name.
  unfoldable pub set_up : Prov W (SshTransport × Text)
  unfolding named
  set_up = do
    create_runtime setting
    t ← transport setting
    act (λ w. (assert_available setting.net t w, w))
    name ← (λ s. (named s.runtime_name, s))
    pure (t, name)

  -- The launch behind the two tasks: the command that is run instead of the prepared one.
  unfoldable pub compose : List Text → SshTransport → List ℤ → Prov W (List Text)
  unfolding text join_words shell_quote
  compose prepared t ports = do
    remote ← act (
        stage setting.net t setting.traits.connection_file setting.traits.connection_name
          setting.traits.remote_connection_dir)
    kernel_command ← outcome (remote_kernel_command prepared setting.spellings remote)
    outcome (command t (text "exec " ++ join_words (map shell_quote kernel_command)) ports)

  -- A wait that fails while the document is still being prepared does not stop the preparation: the
  -- exception is handled, and then the preparation ends.
  unfoldable pub overtaken : Text → Prov W (Unit {0})
  overtaken name = do recover; (λ s. (ok tt, (prepare_connection name s).1))

  -- The two tasks, in the order in which they end, and what follows them. Where the preparation fails
  -- first, the wait goes on without a trace in the session.
  unfoldable pub connect : Order → List Text → SshTransport → Text → Prov W (List Text)
  connect prepared_first prepared t name =
      on_exception (prepare_connection name >>= λ ports. wait t >>= λ _. compose prepared t ports)
        recover
  connect waited_first prepared t name = on_exception (wait t) (overtaken name) >>= λ _.
      on_exception (prepare_connection name >>= λ ports. compose prepared t ports) recover

  -- A host that is not FreeBSD is refused.
  unfoldable pub assert_supported : Result (Unit {0})
  assert_supported =
      raise_if (not setting.is_freebsd)
        (runtime_error "FreeBSD remote runtime provisioner requires a FreeBSD host" [])

  unfoldable pub connect_ready : Order → List Text → SshTransport × Text → Prov W (List Text)
  connect_ready order prepared (t, name) = connect order prepared t name

  unfoldable pub launch : Order → List Text → Prov W (List Text)
  launch order prepared = on_exception set_up recover >>= connect_ready order prepared

  unfoldable pub prepare : Order → Unit {0} → Prov W (List Text)
  prepare order passed = act setting.super_pre_launch >>= launch order

  -- `pre_launch`: the command, where everything went well
  unfoldable pub pre_launch : Order → Prov W (List Text)
  pre_launch order = outcome assert_supported >>= prepare order

  unbound : Option Reservation → Option Reservation
  unbound none = none
  unbound (some r) = some (record r { bound = false })

  unfoldable pub launch_kernel : List Text → Prov W Members
  unfolding unbound
  launch_kernel argv = do
    update (λ s. record s { reservation = unbound s.reservation })
    on_exception (act (setting.super_launch argv)) recover

  unfoldable pub cleanup : Prov W (Unit {0})
  cleanup = finally (act setting.super_cleanup) recover
