-- ===== src/Provisioner.antt =====
-- `RemoteRuntimeProvisioner` of freebsd_laboratory/remote_provisioner.py and its subclasses in
-- freebsd_laboratory/provisioner.py and freebsd_laboratory/bhyve.py: the life of a remote kernel.
pub mod Session
pub mod Runtime
pub mod Launch
pub mod Recovery
pub mod Document
pub mod Info
