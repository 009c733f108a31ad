-- ===== src/Evidence.antt =====
-- The evidence stream of freebsd_laboratory/service.py: what a client or the server reports is
-- redacted, bounded, numbered and appended to the session's log.
pub mod Json
pub mod Redact
pub mod Service
