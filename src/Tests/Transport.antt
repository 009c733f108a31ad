-- ===== src/Tests/Transport.antt =====
-- The properties of the SSH transport at concrete values. The world is a clock, and the guest's port
-- opens at its fortieth tick.
use freebsd_laboratory.Base.{ℕ, ◌+◌, true, false, [], ◌∷◌, none, some, arith, leb}
use freebsd_laboratory.Base.Int.{pos}
use freebsd_laboratory.Base.Text.{text}
use freebsd_laboratory.Host.{Host, completed, delivered}
use freebsd_laboratory.Transport.{SshTransport, Net, command}
use freebsd_laboratory.Transport.Forwards.{IsForwarding, command-IsForwarding}
use freebsd_laboratory.Transport.Wait.{wait_until_ready}
use freebsd_laboratory.Transport.Wait.Ends.{IsClock, Ended, wait_until_ready-Ended}

abbrev pub clock_host : Host ℕ
clock_host = record {
  subprocess =
      λ argv timeout w. (completed (record { returncode = pos 0; stdout = []; stderr = [] }), w);
  signal_zero = λ pid w. delivered;
  file_call = λ call w. (true, w);
  mkstemp = λ prefix w. (some prefix, w);
  is_symlink = λ path w. false;
  is_file = λ path w. true;
  is_executable = λ path w. true;
  resolve = λ path w. path;
  refuses = λ path w. false;
  unwritable = λ path w. false;
  sha256 = λ t. t;
  b64decode = λ t. none;
}

abbrev pub clock_net : Net ℕ
clock_net = record {
  host = clock_host;
  which = λ command w. false;
  readable = λ path w. true;
  is_ipv6 = λ t. false;
  exists = λ path w. true;
  content = λ path w. some [];
  feed = λ argv input timeout w.
      (completed (record { returncode = pos 0; stdout = []; stderr = [] }), w + 1);
  monotonic = λ w. (w, w);
  sleep = λ d w. w + d;
  connects = λ host timeout w. (leb 40 w, w + 1);
  quarter = 1;
}

abbrev demo_transport : SshTransport
demo_transport = record {
  host = text "172.31.254.10";
  user = text "freebsd";
  private_key = text "/home/lab/id_ed25519";
  known_hosts_file = text "/home/lab/known_hosts";
  ssh_command = text "/usr/bin/ssh";
  scp_command = text "/usr/bin/scp";
  config_file = text "/dev/null";
  connect_timeout = 5;
  connection_attempts = 3;
  server_alive_interval = 15;
  server_alive_count_max = 4;
  tcp_keep_alive = true;
  bind_address = text "127.0.0.1";
}

command-IsForwarding_example :
    IsForwarding demo_transport
      (text "true")
      (pos 30001 ∷ pos 30000 ∷ pos 30001 ∷ [])
      (command demo_transport (text "true") (pos 30001 ∷ pos 30000 ∷ pos 30001 ∷ []))
command-IsForwarding_example =
    command-IsForwarding demo_transport (text "true") (pos 30001 ∷ pos 30000 ∷ pos 30001 ∷ [])

abbrev clock_IsClock : IsClock clock_net
clock_IsClock = record {
  time = λ w. w;
  read_now = λ w. omega arith;
  read_then = λ w. omega arith;
  sleeps = λ d w. omega arith;
  connecting = λ h d w. omega arith;
  feeding = λ argv input d w. omega arith;
  ticking = omega arith;
}

wait_until_ready-Ended_example :
    Ended clock_net demo_transport clock_IsClock
      (wait_until_ready clock_net demo_transport (pos 30) 7).0
wait_until_ready-Ended_example =
    wait_until_ready-Ended clock_net demo_transport clock_IsClock (pos 30) 7
