-- ===== src/Provisioner/Runtime.antt =====
-- Creating and destroying the runtime: `_create_runtime`, `_destroy_runtime` and what they call.
use freebsd_laboratory.Base.{
  Bool, true, false, [], ◌∷◌, ◌++◌, Option, none, some, not, ◌||◌, ◌==◌, if◌then◌else◌, is_nil, any,
}
use freebsd_laboratory.Base.Int.{ℤ}
use freebsd_laboratory.Base.Text.{Text, text, eq_text, starts_with}
use freebsd_laboratory.Base.Split.{strip}
use freebsd_laboratory.Base.Dict.{Dict}
use freebsd_laboratory.Base.Result.{Result, ok, err, runtime_error, os_error, raise_if}
use freebsd_laboratory.Host.{
  Sys, FileCall, file, Outcome, completed, timed_out, not_started, is_zero, pure, ◌>>=◌, ◌>>◌,
}
use freebsd_laboratory.Daemon.Names
use freebsd_laboratory.Evidence.Json.{Json, Items, Members, str, array, object, nil, item, get}
use freebsd_laboratory.PortLeases.{release_ports}
use freebsd_laboratory.Client.Read.{Returned, failed, got}
use freebsd_laboratory.Client.Request
use freebsd_laboratory.Transport.{SshTransport, dev_null}
use freebsd_laboratory.Provisioner.Session.{
  Setting, Prov, jail, freebsd_bhyve, linux_bhyve, Reservation, act, outcome, update,
}

-- directory / name
unfoldable pub under : Text → Text → Text
under directory name = directory ++ b'/' ∷ name

-- The material of a public key file: one line, of an Ed25519 key.
unfoldable pub key_material : Option Text → Result Text
unfolding strip text
key_material none = err os_error
key_material (some content) =
    if any (λ c. c == 10) (strip content) || not (starts_with (strip content) (text "ssh-ed25519 "))
    then err (runtime_error "ssh-keygen returned an invalid Ed25519 public key" [])
    else ok (strip content)

-- subprocess.TimeoutExpired is kept as a runtime error.
keygen_status : Outcome → Result (Unit {0})
keygen_status (completed c) =
    if is_zero c.returncode
    then ok tt
    else err (runtime_error "Unable to generate per-runtime SSH key" [])
keygen_status timed_out = err (runtime_error "Command timed out" [])
keygen_status not_started = err os_error

-- `x in items`
has_text : Text → Items → Bool
has_text t nil = false
has_text t (item (str s) xs) = eq_text t s || has_text t xs
has_text t (item x xs) = has_text t xs

contains_text : Text → Text → Bool
contains_text [] t = is_nil t
contains_text (c ∷ s) t = starts_with (c ∷ s) t || contains_text s t

is_present : Option Json → Bool
is_present none = false
is_present (some v) = true

-- `t in value`, where the value may be missing; a TypeError is kept as a runtime error.
capable : Text → Option Json → Result Bool
unfolding has_text contains_text is_present
capable t none = ok false
capable t (some (array xs)) = ok (has_text t xs)
capable t (some (str s)) = ok (contains_text s t)
capable t (some (object d)) = ok (is_present (get t d))
capable t (some _) = err (runtime_error "argument is not iterable" [])

supported : Result Bool → Result (Unit {0})
supported (err e) = err e
supported (ok found) =
    raise_if (not found) (runtime_error "Runtime daemon does not support Linux bhyve guests" [])

-- The RuntimeControlError of a request, or its result.
unfoldable pub control_result : Returned Members → Result Members
control_result (failed e) = err (runtime_error "Runtime control request failed" [])
control_result (got d) = ok d

module _ {W : Type 0} (setting : Setting W) where
  unfoldable pub control : (W → Returned Members × W) → Sys W Members
  unfolding control_result
  control call w = let (r, w') = call w in (control_result r, w')

  require_linux : Option Json → Sys W (Unit {0})
  unfolding capable supported text
  require_linux capabilities w = (supported (capable (text "bhyve.linux") capabilities), w)

  unfoldable pub request_create : Text → ℤ → Text → Sys W Members
  unfolding require_linux text
  request_create name owner_pid key = elim setting.traits.kind [
    | jail ↦ control (Request.create_jail setting.codec setting.exchange name owner_pid key)
    | freebsd_bhyve ↦ control (
        Request.create_bhyve setting.codec setting.exchange name owner_pid key
          (text "freebsd-python"))
    | linux_bhyve ↦ control (Request.ping setting.codec setting.exchange) >>= λ info.
        require_linux (get (text "capabilities") info) >>= λ found. control (
          Request.create_bhyve setting.codec setting.exchange name owner_pid key
            (text "linux-python"))
  ]

  -- `_remove_runtime_path`
  unfoldable pub remove_runtime_path : Text → Sys W (Unit {0})
  remove_runtime_path path w =
      let unlinked = file setting.net.host (FileCall.unlink path) w in
      if setting.net.host.is_symlink path w || setting.net.host.is_file path w
      then unlinked
      else (ok tt, if setting.is_dir path w then setting.remove_tree path w else w)

  touch : Text → Sys W (Unit {0})
  touch path w = let (done, w') = setting.touch path w in (if done then ok tt else err os_error, w')

  -- A file that ssh-keygen should have made.
  regular : Text → Text → Sys W (Unit {0})
  regular path name w = (
    raise_if (setting.net.host.is_symlink path w || not (setting.net.host.is_file path w))
        (runtime_error "ssh-keygen did not create a regular key" (name ∷ [])),
    w,
  )

  keygen : Text → Sys W (Unit {0})
  unfolding keygen_status text
  keygen private_key w =
      let (o, w') =
        setting.net.host.subprocess
          (setting.traits.ssh_keygen_command
            ∷ text "-q"
            ∷ text "-t"
            ∷ text "ed25519"
            ∷ text "-N"
            ∷ []
            ∷ text "-f"
            ∷ private_key
            ∷ [])
          (some 15) w in
      (keygen_status o, w')

  -- `_create_runtime_key`, but for the assignment at its end
  unfoldable pub create_runtime_key : Text → Sys W Text
  unfolding keygen regular under text
  create_runtime_key runtime_path = do
    keygen (under runtime_path (text "id_ed25519"))
    regular (under runtime_path (text "id_ed25519")) (text "private")
    regular (under runtime_path (text "id_ed25519.pub")) (text "public")
    file setting.net.host (FileCall.chmod (under runtime_path (text "id_ed25519")) 0o600)
    file setting.net.host (FileCall.chmod (under runtime_path (text "id_ed25519.pub")) 0o600)
    λ w. (key_material (setting.net.content (under runtime_path (text "id_ed25519.pub")) w), w)

  -- The directory of the runtime, made anew, with an empty known_hosts file.
  prepare_path : Text → Sys W (Unit {0})
  unfolding under touch text
  prepare_path path = do
    remove_runtime_path path
    file setting.net.host (FileCall.mkdir path 0o700)
    file setting.net.host (FileCall.chmod path 0o700)
    touch (under path (text "known_hosts"))
    file setting.net.host (FileCall.chmod (under path (text "known_hosts")) 0o600)

  guest_address : Option Json → Result Text
  guest_address (some (str (c ∷ s))) = ok (c ∷ s)
  guest_address _ = err (runtime_error "Runtime daemon did not return the address" [])

  unfoldable pub create_runtime : Prov W (Unit {0})
  unfolding prepare_path guest_address under text
  create_runtime = do
    name ← outcome (Names.runtime_name setting.traits.kernel_id)
    update (λ s. record s { runtime_name = some name })
    act (prepare_path (under setting.traits.runtime_dir name))
    update (λ s. record s {
      known_hosts_file = some (under (under setting.traits.runtime_dir name) (text "known_hosts"));
    })
    key ← act (create_runtime_key (under setting.traits.runtime_dir name))
    update (λ s. record s {
      ssh_private_key = some (under (under setting.traits.runtime_dir name) (text "id_ed25519"));
    })
    result ← act (request_create name setting.traits.pid key)
    update (λ s. record s { runtime_created = true })
    ip ← outcome (guest_address (get (text "guest_ip") result))
    update (λ s. record s { guest_ip = some ip })

  transport_of : Option Text → Option Text → Option Text → Result SshTransport
  unfolding text
  transport_of (some ip) (some known_hosts) (some key) = ok (record {
    host = ip;
    user = setting.traits.ssh_user;
    private_key = key;
    known_hosts_file = known_hosts;
    ssh_command = setting.traits.ssh_command;
    scp_command = setting.traits.scp_command;
    config_file = dev_null;
    connect_timeout = setting.traits.ssh_connect_timeout;
    connection_attempts = setting.traits.ssh_connection_attempts;
    server_alive_interval = setting.traits.ssh_server_alive_interval;
    server_alive_count_max = setting.traits.ssh_server_alive_count_max;
    tcp_keep_alive = true;
    bind_address = text "127.0.0.1";
  })
  transport_of _ _ _ = err (runtime_error "SSH transport is not initialized" [])

  unfoldable pub transport : Prov W SshTransport
  unfolding transport_of
  transport s = (transport_of s.guest_ip s.known_hosts_file s.ssh_private_key, s)

  -- LocalPortReservation.release
  unfoldable pub release_reservation :
      Option Reservation → Bool → Dict Bool → Result (Unit {0}) × Dict Bool
  release_reservation none opens leases = (ok tt, leases)
  release_reservation (some r) opens leases =
      release_ports setting.ports.host.sha256 r.reserved.ports r.owner r.pid r.reserved.uid
        r.reserved.digest opens leases

  -- The reservation is forgotten before its release, which may raise.
  unfoldable pub release_tunnel_ports : Prov W (Unit {0})
  unfolding release_reservation
  release_tunnel_ports = do
    (λ s.
        let (r, leases') =
          release_reservation s.reservation (setting.ports.lock_opens s.world) s.leases in
        (r, record s { reservation = none; leases = leases' }))
    update (λ s. record s { tunnel_ports = [] })

  -- The request to the daemon; its failure is logged, and no more.
  unfoldable pub destroy_remote : Bool → Option Text → W → W
  destroy_remote true (some (c ∷ name)) w =
      (Request.destroy setting.codec setting.exchange (c ∷ name) w).1
  destroy_remote _ _ w = w

  unfoldable pub remove_local : Option Text → Sys W (Unit {0})
  remove_local (some (c ∷ name)) = remove_runtime_path (under setting.traits.runtime_dir (c ∷ name))
  remove_local _ = pure tt

  unfoldable pub destroy_runtime : Prov W (Unit {0})
  unfolding destroy_remote remove_local under release_tunnel_ports
  destroy_runtime = do
    release_tunnel_ports
    update (λ s. record s { world = destroy_remote s.runtime_created s.runtime_name s.world })
    update (λ s. record s { runtime_created = false })
    (λ s. act (remove_local s.runtime_name) s)
    update (λ s. record s {
      runtime_name = none;
      guest_ip = none;
      known_hosts_file = none;
      ssh_private_key = none;
    })
