-- ===== src/Daemon/Config.antt =====
-- `RuntimeConfig`, the bhyve profiles and the data of a registry record.
use freebsd_laboratory.Base.{ℕ, Option, none, some, if◌then◌else◌}
use freebsd_laboratory.Base.Int.{ℤ}
use freebsd_laboratory.Base.Text.{Text, text, eq_text}
use freebsd_laboratory.Base.Value.{Value, null, int, str}
use freebsd_laboratory.Addresses.{Pool}
use freebsd_laboratory.Host.{Host}

-- `RuntimeConfig`; `pool` and `prefix_len` are what `RuntimeManager.__init__` makes of the network
-- and of the two ends of the range. Fields that only the socket set-up reads are left out.
pub record RuntimeConfig : Type 0 where
  pub registry_dir : Text
  pub pool : Pool
  pub prefix_len : ℕ
  pub network_cidr : Text
  pub host_address : Text
  pub bridge_name : Text
  pub jail_template_snapshot : Text
  pub jail_dataset_parent : Text
  pub jail_mount_root : Text
  pub jail_interface_name : Text
  pub jail_ssh_user : Text
  pub jail_sshd_service : Text
  pub vm_command : Text
  pub vm_image : Text
  pub vm_switch : Text
  pub vm_disk_backend : Text
  pub vm_zvol_snapshot : Text
  pub vm_zvol_parent : Text
  pub vm_dataset_parent : Text
  pub vm_disk_size : Text
  pub vm_memdisk_type : Text

-- A manager is its configuration and the host on which it acts.
pub record Manager (W : Type 0) : Type 0 where
  pub host : Host W
  pub config : RuntimeConfig

-- PeerCredentials
pub record PeerCredentials : Type 0 where
  pub pid : ℤ
  pub uid : ℤ
  pub gid : ℤ

pub record RuntimeOwner : Type 0 where
  pub pid : ℤ
  pub uid : ℤ
  pub gid : ℤ
  pub started_at : Text
  pub process_digest : Text

pub record BhyveGuestProfile : Type 0 where
  pub template : Text
  pub memdisk_template : Text
  pub image : Text
  pub zvol_snapshot : Text
  pub interface : Text
  pub guest_os : Text

unfoldable pub freebsd_python : BhyveGuestProfile
unfolding text
freebsd_python = record {
  template = text "freebsd-lab";
  memdisk_template = text "freebsd-lab-memdisk";
  image = text "freebsd-python.raw";
  zvol_snapshot = text "zroot/vm/.zvol/freebsd-python@ready";
  interface = text "vtnet0";
  guest_os = text "freebsd";
}

unfoldable pub linux_python : BhyveGuestProfile
unfolding text
linux_python = record {
  template = text "linux-lab";
  memdisk_template = text "linux-lab-memdisk";
  image = text "linux-python.raw";
  zvol_snapshot = text "zroot/vm/.zvol/linux-python@ready";
  interface = text "eth0";
  guest_os = text "linux";
}

-- BHYVE_PROFILES.get(profile)
unfoldable pub bhyve_profile : Text → Option BhyveGuestProfile
unfolding text
bhyve_profile profile =
    if eq_text profile (text "freebsd-python")
    then some freebsd_python
    else if eq_text profile (text "linux-python")
    then some linux_python
    else none

-- A registry document, by the values under the keys that the daemon writes. A missing key is
-- `null`, as `record.get` returns None for it. The constant keys `schema`, `bridge` and
-- `disk_backend`, which are written and never read, are left out.
pub record RuntimeRecord : Type 0 where
  pub name : Value
  pub kind : Value
  pub owner_pid : Value
  pub owner_uid : Value
  pub owner_gid : Value
  pub owner_started_at : Value
  pub owner_process_digest : Value
  pub guest_ip : Value
  pub dataset : Value
  pub jail_root : Value
  pub epair_host : Value
  pub epair_guest : Value
  pub jail_created : Value
  pub dataset_created : Value
  pub profile : Value
  pub guest_os : Value
  pub md_unit : Value
  pub vm_created : Value

-- {}
abbrev pub empty_record : RuntimeRecord
empty_record = record {
  name = null;
  kind = null;
  owner_pid = null;
  owner_uid = null;
  owner_gid = null;
  owner_started_at = null;
  owner_process_digest = null;
  guest_ip = null;
  dataset = null;
  jail_root = null;
  epair_host = null;
  epair_guest = null;
  jail_created = null;
  dataset_created = null;
  profile = null;
  guest_os = null;
  md_unit = null;
  vm_created = null;
}

-- {**owner.registry_fields()} in an otherwise empty document
unfoldable pub registry_fields : RuntimeOwner → RuntimeRecord
registry_fields owner = record empty_record {
  owner_pid = int owner.pid;
  owner_uid = int owner.uid;
  owner_gid = int owner.gid;
  owner_started_at = str owner.started_at;
  owner_process_digest = str owner.process_digest;
}
