-- ===== src/Tests.antt =====
-- A small host and its answers, and each property applied to concrete values.
pub mod Demo
pub mod Server
pub mod Leases
pub mod Stream
pub mod Deadlock
pub mod Success
pub mod Client
pub mod Transport
pub mod Provisioner
pub mod Telemetry
pub mod Signing
pub mod Export
pub mod Session
