-- ===== src/Tests/Demo.antt =====
-- A host whose commands answer as on a machine with no runtimes, and a manager on it. Its outside
-- world is the list of the commands that were run, the last one first.
use freebsd_laboratory.Base.{ℕ, true, false, List, [], ◌∷◌, ◌++◌, some, if◌then◌else◌, ◌&&◌, ◌||◌}
use freebsd_laboratory.Base.Int.{pos}
use freebsd_laboratory.Base.Text.{Text, text, eq_text}
use freebsd_laboratory.Base.Value.{int, str}
use freebsd_laboratory.Host.{Host, Completed, completed, delivered}
use freebsd_laboratory.Addresses.{Pool}
use freebsd_laboratory.Daemon.Config.{
  RuntimeConfig, Manager, PeerCredentials, RuntimeRecord, empty_record,
}
use freebsd_laboratory.Daemon.State.{State, document}

abbrev pub World : Type 0
World = List (List Text)

reply : ℕ → Text → Completed
reply code shown = record { returncode = pos code; stdout = shown; stderr = [] }

-- Queries for a jail or a dataset find none.
answer : List Text → Completed
unfolding text reply
answer (program ∷ verb ∷ rest) =
    if eq_text program (text "/bin/ps")
    then reply 0 (text "1001 Mon Jan 5 10:00:00 2026")
    else if eq_text program (text "pw")
    then reply 0 (text "lab:*:1002:1002:Lab:/home/lab:/bin/sh")
    else if eq_text program (text "jls")
        || (eq_text program (text "zfs") && eq_text verb (text "list"))
    then reply 1 []
    else if eq_text verb (text "epair")
    then reply 0 (text "epair0a")
    else if eq_text verb (text "info")
    then reply 1 []
    else reply 0 []
answer _ = reply 0 []

-- The header of an Ed25519 key, and 32 bytes.
abbrev pub key_blob : List ℕ
key_blob =
    0
    ∷ 0
    ∷ 0
    ∷ 11
    ∷ (text "ssh-ed25519" ++ (0 ∷ 0 ∷ 0 ∷ 32 ∷ text "abcdefghijklmnopqrstuvwxyz012345"))

unfoldable pub demo_host : Host World
unfolding answer
demo_host = record {
  subprocess = λ argv timeout w. (completed (answer argv), argv ∷ w);
  signal_zero = λ pid w. delivered;
  file_call = λ call w. (true, w);
  mkstemp = λ prefix w. (some prefix, w);
  is_symlink = λ path w. false;
  is_file = λ path w. true;
  is_executable = λ path w. true;
  resolve = λ path w. path;
  refuses = λ path w. false;
  unwritable = λ path w. false;
  sha256 = λ t. t;
  b64decode = λ t. some key_blob;
}

-- 172.31.254.0/24, from .10 to .12
abbrev pub demo_pool : Pool
demo_pool = record {
  network = record { address = 2887777792; prefix_length = 24 };
  start = 2887777802;
  end = 2887777804;
}

unfoldable pub demo_config : RuntimeConfig
unfolding text
demo_config = record {
  registry_dir = text "/var/db/freebsd-laboratory/runtimes";
  pool = demo_pool;
  prefix_len = 24;
  network_cidr = text "172.31.254.0/24";
  host_address = text "172.31.254.1";
  bridge_name = text "lab0";
  jail_template_snapshot = text "zroot/lab/template@ready";
  jail_dataset_parent = text "zroot/lab/jails";
  jail_mount_root = text "/lab/jails";
  jail_interface_name = text "lab0";
  jail_ssh_user = text "lab";
  jail_sshd_service = text "/usr/sbin/service";
  vm_command = text "/usr/local/sbin/vm";
  vm_image = text "freebsd.raw";
  vm_switch = text "lab";
  vm_disk_backend = text "image";
  vm_zvol_snapshot = text "zroot/vm/base@ready";
  vm_zvol_parent = text "zroot/vm";
  vm_dataset_parent = text "zroot/vm";
  vm_disk_size = text "8G";
  vm_memdisk_type = text "swap";
}

unfoldable pub demo : Manager World
demo = record { host = demo_host; config = demo_config }

abbrev pub alice : PeerCredentials
alice = record { pid = pos 4242; uid = pos 1001; gid = pos 1001 }

abbrev pub bob : PeerCredentials
bob = record { pid = pos 5000; uid = pos 1002; gid = pos 1002 }

unfoldable pub alice_name : Text
unfolding text
alice_name = text "freebsd-lab-alice"

unfoldable pub demo_key : Text
unfolding text
demo_key = text "ssh-ed25519 AAAA"

-- A runtime of alice's.
abbrev pub alice_record : RuntimeRecord
alice_record = record empty_record {
  name = str alice_name;
  owner_pid = int (pos 4242);
  owner_uid = int (pos 1001);
}

abbrev pub empty_state : State World
empty_state = record {
  registry = [];
  leases = record { present = true; files = [] };
  held = [];
  bridge_configured = false;
  vm_switch_configured = false;
  world = [];
}

abbrev pub alice_state : State World
alice_state = record empty_state { registry = (alice_name, document alice_record) ∷ [] }
