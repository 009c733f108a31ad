-- ===== src/Daemon.antt =====
-- freebsd_laboratory/runtime_daemon.py: the daemon that creates, destroys and collects runtimes. The
-- modules below hold one part of `RuntimeManager` each, and `Handler` the request handler; their
-- order is that of the calls.
pub mod Names
pub mod Config
pub mod State
pub mod Access
pub mod Rules
pub mod Registry
pub mod Teardown
pub mod Destroy
pub mod Network
pub mod Reconcile
pub mod Create
pub mod Discover
pub mod Gc
pub mod Handler
pub mod Isolation
