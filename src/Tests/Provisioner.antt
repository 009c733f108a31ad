-- ===== src/Tests/Provisioner.antt =====
-- The properties of the provisioner at concrete values. The world is a clock, and no daemon answers.
use freebsd_laboratory.Base.{ℕ, ◌+◌, true, false, [], ◌∷◌, none, some, ◌≡◌, refl, inr}
use freebsd_laboratory.Base.Int.{pos}
use freebsd_laboratory.Base.Text.{text}
use freebsd_laboratory.Base.Result.{Error, ok, err, runtime_error}
use freebsd_laboratory.Base.Split.{strip}
use freebsd_laboratory.Host.{Host, completed, file}
use freebsd_laboratory.Daemon.Names.{runtime_name, runtime_prefix}
use freebsd_laboratory.Client.Request.{create_bhyve, request}
use freebsd_laboratory.Connection.{
  validate_port_sequence, connection_ports, connection_port_fields, valid_port, ip_key,
}
use freebsd_laboratory.Evidence.Json.{Members, str, int, member, end, get, put}
use freebsd_laboratory.PortLeases.{System}
use freebsd_laboratory.Transport.{Net}
use freebsd_laboratory.Provisioner.Session.{
  Session, Setting, Traits, freebsd_bhyve, act, outcome, update, on_exception,
}
use freebsd_laboratory.Provisioner.Launch.{
  prepared_first, pre_launch, prepare, launch, set_up, assert_supported, recover,
  restore_and_forget, restore_connection,
}
use freebsd_laboratory.Provisioner.Runtime.{
  create_runtime, destroy_runtime, remove_runtime_path, control, request_create, key_material,
  create_runtime_key,
}
use freebsd_laboratory.Provisioner.Recovery.{Failed, pre_launch-Failed}
use freebsd_laboratory.Provisioner.Document.Restored.{pre_launch-Alike}
use freebsd_laboratory.Provisioner.Info.{
  get_provisioner_info, load_provisioner_info, private_key_of,
}
use freebsd_laboratory.Provisioner.Info.RoundTrip.{load-get_provisioner_info}
use freebsd_laboratory.Tests.Transport.{clock_net, clock_host}

-- Every process is of user 1001, and every key file holds an Ed25519 key.
abbrev lab_host : Host ℕ
lab_host = record clock_host {
  subprocess = λ argv timeout w. (
    completed
        (record { returncode = pos 0; stdout = text "1001 Mon Jan 5 10:00:00 2026"; stderr = [] }),
    w + 1,
  );
}

abbrev lab_net : Net ℕ
lab_net = record clock_net {
  host = lab_host;
  content = λ path w. some (text "ssh-ed25519 AAAA lab");
}

abbrev lab_traits : Traits
lab_traits = record {
  kind = freebsd_bhyve;
  kernel_id = text "4f";
  pid = pos 4242;
  has_parent = true;
  connection_file = text "/run/kernel.json";
  connection_name = text "kernel.json";
  ssh_user = text "freebsd";
  ssh_keygen_command = text "/usr/bin/ssh-keygen";
  ssh_command = text "/usr/bin/ssh";
  scp_command = text "/usr/bin/scp";
  remote_connection_dir = text "/tmp/freebsd-laboratory";
  runtime_dir = text "/home/lab/runtime";
  startup_timeout = pos 0;
  ssh_connect_timeout = 5;
  ssh_connection_attempts = 3;
  ssh_server_alive_interval = 15;
  ssh_server_alive_count_max = 4;
  tunnel_port_start = pos 30000;
  tunnel_port_end = pos 30004;
}

abbrev lab_ports : System ℕ
lab_ports = record {
  host = lab_host;
  own_pid = pos 4242;
  own_uid = pos 1001;
  bindable = λ port. true;
  creatable = λ name. true;
  offset = λ owner. 3;
  is_hex = λ t. true;
  lock_opens = λ w. true;
}

abbrev lab : Setting ℕ
lab = record {
  traits = lab_traits;
  net = lab_net;
  ports = lab_ports;
  codec = record { dumps = λ j. []; loads = λ line. none };
  exchange = λ line w. (none, w + 1);
  is_freebsd = true;
  is_dir = λ path w. true;
  remove_tree = λ path w. w + 1;
  touch = λ path w. (true, w + 1);
  rewritable = λ w. ok tt;
  restorable = λ w. true;
  replace_document = λ w. (true, w + 1);
  return_port = λ port w. w;
  spellings = text "/run/kernel.json" ∷ [];
  show = λ j. [];
  super_pre_launch = λ w. (ok (text "python" ∷ text "/run/kernel.json" ∷ []), w + 1);
  super_launch = λ argv w. (err (runtime_error "no such file" []), w + 1);
  super_cleanup = λ w. (ok tt, w + 1);
}

abbrev lab_document : Members
lab_document = member (text "ip") (str (text "0.0.0.0")) (
    member (text "shell_port") (int (pos 5001)) (
      member (text "iopub_port") (int (pos 5002)) (
        member (text "stdin_port") (int (pos 5003)) (
          member (text "control_port") (int (pos 5004))
            (member (text "hb_port") (int (pos 5005)) end)))))

abbrev fresh : Session ℕ
fresh = record {
  runtime_name = none;
  guest_ip = none;
  known_hosts_file = none;
  ssh_private_key = none;
  runtime_created = false;
  original_ip = none;
  original_ports = [];
  tunnel_ports = [];
  reservation = none;
  ports_cached = false;
  parent_ip = text "0.0.0.0";
  document = lab_document;
  leases = [];
  world = 0;
}

-- A kernel that runs, behind its five tunnels.
abbrev busy : Session ℕ
busy = record fresh {
  runtime_name = some (text "freebsd-lab-4f");
  guest_ip = some (text "172.31.254.10");
  known_hosts_file = some (text "/home/lab/runtime/freebsd-lab-4f/known_hosts");
  runtime_created = true;
  original_ip = some (text "0.0.0.0");
  original_ports = pos 5001 ∷ pos 5002 ∷ pos 5003 ∷ pos 5004 ∷ pos 5005 ∷ [];
  tunnel_ports = pos 30003 ∷ pos 30004 ∷ pos 30000 ∷ pos 30001 ∷ pos 30002 ∷ [];
  reservation = some (record {
    owner = text "freebsd-lab-4f";
    pid = pos 4242;
    reserved = record {
      ports = 30003 ∷ 30004 ∷ 30000 ∷ 30001 ∷ 30002 ∷ [];
      uid = pos 1001;
      digest = text "ab";
    };
    bound = true;
  });
}

abbrev no_daemon : Error
no_daemon = runtime_error "Runtime control request failed" []

-- The launch ends with the request to a daemon that does not answer.
launch_without_daemon : (pre_launch lab prepared_first fresh).0 ≡ err no_daemon
unfolding pre_launch outcome assert_supported prepare act launch on_exception set_up create_runtime
    runtime_name update remove_runtime_path file create_runtime_key key_material request_create
    control create_bhyve request recover destroy_runtime restore_and_forget restore_connection text
    strip runtime_prefix
launch_without_daemon = refl

pre_launch-Failed_example : Failed lab no_daemon (pre_launch lab prepared_first fresh).1
pre_launch-Failed_example =
    pre_launch-Failed lab fresh no_daemon
      (record {
        reservation = refl;
        tunnel_ports = refl;
        runtime_created = refl;
        original_ip = refl;
        original_ports = refl;
      })
      (record {
        runtime_name = refl;
        guest_ip = refl;
        known_hosts_file = refl;
        ssh_private_key = refl;
      })
      launch_without_daemon

pre_launch-Alike_example :
    get (text "ip") (pre_launch lab prepared_first fresh).1.document
    ≡ get (text "ip") fresh.document
unfolding get ip_key text
pre_launch-Alike_example =
    pre_launch-Alike lab (text "0.0.0.0") refl (λ w. refl) (λ w. refl) fresh no_daemon refl refl
      refl launch_without_daemon (text "ip")

load-get_provisioner_info_example :
    let u = load_provisioner_info lab (get_provisioner_info lab lab_document busy) fresh in
    (u.runtime_name ≡ busy.runtime_name)
    × (u.guest_ip ≡ busy.guest_ip)
    × (u.known_hosts_file ≡ busy.known_hosts_file)
    × (u.ssh_private_key ≡ private_key_of lab busy.runtime_name fresh.world)
    × (u.runtime_created ≡ busy.runtime_created)
    × (u.original_ip ≡ busy.original_ip)
    × (u.original_ports ≡ busy.original_ports)
    × (u.tunnel_ports ≡ busy.tunnel_ports)
unfolding text validate_port_sequence connection_ports connection_port_fields valid_port get put
load-get_provisioner_info_example =
    load-get_provisioner_info lab lab_document busy fresh tt tt tt tt (inr refl) (inr refl)
