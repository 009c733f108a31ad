-- ===== src/Transport.antt =====
-- `SSHTransport` of freebsd_laboratory/ssh_transport.py. Files, subprocesses and the clock belong to
-- the host; names are looked up in PATH, IPv6 addresses recognised and TCP connections tried by
-- parameters.
pub mod Forwards
pub mod Wait
use freebsd_laboratory.Base.{
  ℕ, suc, Bool, true, false, List, [], ◌∷◌, ◌++◌, Option, none, some, not, ◌&&◌, ◌||◌, ◌==◌,
  if◌then◌else◌, is_nil, all, any, ltb,
}
use freebsd_laboratory.Base.Int.{ℤ, pos, negsuc, eq_ℤ, le_ℤ}
use freebsd_laboratory.Base.Text.{Text, text, eq_text, starts_with, is_lower, is_upper, is_digit}
use freebsd_laboratory.Base.Decimal.{decimal}
use freebsd_laboratory.Base.Split.{rstrip}
use freebsd_laboratory.Base.Ipv4.{address?}
use freebsd_laboratory.Base.Shell.{shell_quote}
use freebsd_laboratory.Base.Result.{
  Result, ok, err, Error, value_error, runtime_error, raise_if, ◌>>=◌, ◌>>◌,
}
use freebsd_laboratory.Host.{Host, Outcome}
use freebsd_laboratory.Identity.{int_text}

pub record SshTransport : Type 0 where
  pub host : Text
  pub user : Text
  pub private_key : Text
  pub known_hosts_file : Text
  pub ssh_command : Text
  pub scp_command : Text
  pub config_file : Text
  pub connect_timeout : ℕ
  pub connection_attempts : ℕ
  pub server_alive_interval : ℕ
  pub server_alive_count_max : ℕ
  pub tcp_keep_alive : Bool
  pub bind_address : Text

-- What the transport asks of its system beside `Host`. Time is counted in ticks, `quarter` of which
-- make a quarter of a second. `feed` is subprocess.run with the text that the command reads, and
-- `content` is the text of a file, `none` where reading raises.
pub record Net (W : Type 0) : Type 0 where
  pub host : Host W
  pub which : Text → W → Bool
  pub readable : Text → W → Bool
  pub is_ipv6 : Text → Bool
  pub exists : Text → W → Bool
  pub content : Text → W → Option Text
  pub feed : List Text → Option Text → ℕ → W → Outcome × W
  pub monotonic : W → ℕ × W
  pub sleep : ℕ → W → W
  pub connects : Text → ℕ → W → Bool × W
  pub quarter : ℕ

is_user : Text → Bool
is_user [] = false
is_user (c ∷ s) =
    (is_lower c || c == b'_') && all (λ d. is_lower d || is_digit d || d == b'_' || d == b'-') s

is_alnum : ℕ → Bool
is_alnum c = is_lower c || is_upper c || is_digit c

is_host : Text → Bool
unfolding is_alnum
is_host [] = false
is_host (c ∷ s) = is_alnum c && all (λ d. is_alnum d || d == b'.' || d == b'-') s

is_some : Option ℕ → Bool
is_some none = false
is_some (some n) = true

unfoldable pub dev_null : Text
unfolding text
dev_null = text "/dev/null"

module _ {W : Type 0} (net : Net W) where
  -- ipaddress.ip_address(s) does not raise
  is_address : Text → Bool
  unfolding is_some
  is_address s = is_some (address? s) || net.is_ipv6 s

  executable_exists : Text → W → Bool
  executable_exists command w =
      if starts_with command (b'/' ∷ [])
      then net.host.is_file command w && net.host.is_executable command w
      else net.which command w

  irregular : Text → W → Bool
  irregular path w = net.host.is_symlink path w || not (net.host.is_file path w)

  -- The first check that fails raises.
  unfoldable pub assert_available : SshTransport → W → Result (Unit {0})
  unfolding is_address is_user is_host executable_exists irregular
  assert_available t w = do
    raise_if (not (is_address t.bind_address)) (value_error "Invalid bind_address")
    raise_if (not (is_user t.user)) (value_error "Invalid SSH user")
    raise_if (not (is_address t.host) && not (is_host t.host)) (value_error "Invalid host address")
    raise_if (not (executable_exists t.ssh_command w))
        (runtime_error "Required executable is unavailable" (t.ssh_command ∷ []))
    raise_if (not (executable_exists t.scp_command w))
        (runtime_error "Required executable is unavailable" (t.scp_command ∷ []))
    raise_if (irregular t.private_key w)
        (runtime_error "Required SSH private key is unavailable" (t.private_key ∷ []))
    raise_if
        (not (eq_text t.config_file dev_null)
          && (irregular t.config_file w || not (net.readable t.config_file w)))
        (runtime_error "SSH client configuration path is unavailable" (t.config_file ∷ []))
    raise_if (net.host.is_symlink t.known_hosts_file w)
        (runtime_error "Known hosts file must not be a symbolic link" (t.known_hosts_file ∷ []))

unfoldable pub target : SshTransport → Text
target t = t.user ++ b'@' ∷ t.host

unfoldable pub options : SshTransport → List Text
unfolding text
options t =
    text "-F"
    ∷ t.config_file
    ∷ text "-i"
    ∷ t.private_key
    ∷ text "-o"
    ∷ text "BatchMode=yes"
    ∷ text "-o"
    ∷ text "IdentitiesOnly=yes"
    ∷ text "-o"
    ∷ (text "ConnectTimeout=" ++ decimal t.connect_timeout)
    ∷ text "-o"
    ∷ (text "ConnectionAttempts=" ++ decimal t.connection_attempts)
    ∷ text "-o"
    ∷ (text "ServerAliveInterval=" ++ decimal t.server_alive_interval)
    ∷ text "-o"
    ∷ (text "ServerAliveCountMax=" ++ decimal t.server_alive_count_max)
    ∷ text "-o"
    ∷ (text "TCPKeepAlive=" ++ (if t.tcp_keep_alive then text "yes" else text "no"))
    ∷ text "-o"
    ∷ text "ExitOnForwardFailure=yes"
    ∷ text "-o"
    ∷ text "StrictHostKeyChecking=accept-new"
    ∷ text "-o"
    ∷ text "GlobalKnownHostsFile=/dev/null"
    ∷ text "-o"
    ∷ (text "UserKnownHostsFile=" ++ t.known_hosts_file)
    ∷ []

-- a < b
unfoldable pub lt_ℤ : ℤ → ℤ → Bool
lt_ℤ (pos a) (pos b) = ltb a b
lt_ℤ (pos a) (negsuc b) = false
lt_ℤ (negsuc a) (pos b) = true
lt_ℤ (negsuc a) (negsuc b) = ltb b a

-- One more element of a sorted set.
unfoldable pub insert_sorted : ℤ → List ℤ → List ℤ
insert_sorted p [] = p ∷ []
insert_sorted p (q ∷ qs) =
    let rest = insert_sorted p qs in
    if lt_ℤ p q then p ∷ q ∷ qs else if eq_ℤ p q then q ∷ qs else q ∷ rest

-- sorted(set(ports))
unfoldable pub sorted_set : List ℤ → List ℤ
sorted_set [] = []
sorted_set (p ∷ ps) = insert_sorted p (sorted_set ps)

unfoldable pub is_port : ℤ → Bool
is_port p = le_ℤ 1 p && not (le_ℤ 65536 p)

-- -L {bind_address}:{port}:127.0.0.1:{port}
unfoldable pub forward : SshTransport → ℤ → List Text
unfolding text
forward t p =
    text "-L" ∷ (t.bind_address ++ (b':' ∷ int_text p ++ text ":127.0.0.1:" ++ int_text p)) ∷ []

-- The loop over the ports: the first invalid one raises.
unfoldable pub forwards : SshTransport → List ℤ → Result (List Text)
forwards t [] = ok []
forwards t (p ∷ ps) =
    if not (is_port p)
    then err (value_error "Invalid SSH forwarding port")
    else (forwards t ps >>= λ rest. ok (forward t p ++ rest))

-- `command`, whose ports are integers
unfoldable pub command : SshTransport → Text → List ℤ → Result (List Text)
command t remote_command forward_ports = forwards t (sorted_set forward_ports) >>= λ pairs.
    ok (t.ssh_command ∷ (options t ++ (text "-T" ∷ (pairs ++ (target t ∷ remote_command ∷ [])))))
