-- ===== src/Provisioner/Session.antt =====
-- The provisioner's state, and what it asks of its surroundings.
use freebsd_laboratory.Base.{ℕ, Bool, List, Option}
use freebsd_laboratory.Base.Int.{ℤ}
use freebsd_laboratory.Base.Text.{Text}
use freebsd_laboratory.Base.Dict.{Dict}
use freebsd_laboratory.Base.Result.{Result, ok, err}
use freebsd_laboratory.Host.{Sys}
use freebsd_laboratory.Evidence.Json.{Json, Members}
use freebsd_laboratory.PortLeases.{System, Reserved}
use freebsd_laboratory.Client.Read.{Received}
use freebsd_laboratory.Client.Request.{Codec}
use freebsd_laboratory.Transport.{Net}

-- LocalPortReservation; `bound` says that its sockets still hold the ports.
pub record Reservation : Type 0 where
  pub owner : Text
  pub pid : ℤ
  pub reserved : Reserved
  pub bound : Bool

-- The attributes of the provisioner, the parent's address and connection document, the port leases,
-- and the outside world. The parent's port attributes are never read and are left out.
pub record Session (W : Type 0) : Type 0 where
  pub runtime_name : Option Text
  pub guest_ip : Option Text
  pub known_hosts_file : Option Text
  pub ssh_private_key : Option Text
  pub runtime_created : Bool
  pub original_ip : Option Text
  pub original_ports : List ℤ
  pub tunnel_ports : List ℤ
  pub reservation : Option Reservation
  pub ports_cached : Bool
  pub parent_ip : Text
  pub document : Members
  pub leases : Dict Bool
  pub world : W

-- Which subclass it is.
pub data Kind : Type 0 where
  jail freebsd_bhyve linux_bhyve : Kind

-- The traits of the provisioner.
pub record Traits : Type 0 where
  pub kind : Kind
  pub kernel_id : Text
  pub pid : ℤ
  pub has_parent : Bool
  pub connection_file : Text
  pub connection_name : Text
  pub ssh_user : Text
  pub ssh_keygen_command : Text
  pub ssh_command : Text
  pub scp_command : Text
  pub remote_connection_dir : Text
  pub runtime_dir : Text
  pub startup_timeout : ℤ
  pub ssh_connect_timeout : ℕ
  pub ssh_connection_attempts : ℕ
  pub ssh_server_alive_interval : ℕ
  pub ssh_server_alive_count_max : ℕ
  pub tunnel_port_start : ℤ
  pub tunnel_port_end : ℤ

-- The surroundings: the methods of jupyter_client that the provisioner extends, whether the
-- connection document can be rewritten, restored, and replaced by another, the cache of ports, and
-- the host. `spellings` are the spellings of the host's connection file that a command may use, and
-- `show` is str() of a value that is no text.
pub record Setting (W : Type 0) : Type 0 where
  pub traits : Traits
  pub net : Net W
  pub ports : System W
  pub codec : Codec
  pub exchange : Text → W → Option (List Received) × W
  pub is_freebsd : Bool
  pub is_dir : Text → W → Bool
  pub remove_tree : Text → W → W
  pub touch : Text → W → Bool × W
  pub rewritable : W → Result (Unit {0})
  pub restorable : W → Bool
  pub replace_document : W → Bool × W
  pub return_port : ℤ → W → W
  pub spellings : List Text
  pub show : Json → Text
  pub super_pre_launch : Sys W (List Text)
  pub super_launch : List Text → Sys W Members
  pub super_cleanup : Sys W (Unit {0})

-- Code of the provisioner: it may raise, and changes the session.
abbrev pub Prov : Type 0 → Type 0 → Type 0
Prov W A = Sys (Session W) A

module _ {W A : Type 0} where
  -- Code that acts on the outside world alone.
  unfoldable pub act : Sys W A → Prov W A
  act m s = let (r, w') = m s.world in (r, record s { world = w' })

  unfoldable pub outcome : Result A → Prov W A
  outcome r s = (r, s)

-- Assignments to attributes.
unfoldable pub update : {W : Type 0} → (Session W → Session W) → Prov W (Unit {0})
update f s = (ok tt, f s)

-- How a handler that was run for the end `r` ends: its own exception takes the place of `r`.
unfoldable pub replaced :
    {W A : Type 0} → Result A → Result (Unit {0}) × Session W → Result A × Session W
replaced r (ok done, t) = (r, t)
replaced r (err other, t) = (err other, t)

unfoldable pub rescued :
    {W A : Type 0} → Result A × Session W → Prov W (Unit {0}) → Result A × Session W
unfolding replaced
rescued (ok a, t) handler = (ok a, t)
rescued (err e, t) handler = replaced (err e) (handler t)

-- try: m except Exception: handler; raise
unfoldable pub on_exception : {W A : Type 0} → Prov W A → Prov W (Unit {0}) → Prov W A
unfolding rescued
on_exception m handler s = rescued (m s) handler

-- try: m finally: handler
unfoldable pub finally : {W A : Type 0} → Prov W A → Prov W (Unit {0}) → Prov W A
unfolding replaced
finally m handler s = let (r, t) = m s in replaced r (handler t)
