-- ===== src/Client.antt =====
-- `RuntimeClient` of freebsd_laboratory/runtime_client.py: one request to the runtime daemon and
-- its reply. Reports to Sentry on the way have no effect on the result and are left out.
pub mod Read
pub mod Stream
pub mod Request
pub mod Replies
