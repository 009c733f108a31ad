-- ===== src/Daemon/Create.antt =====
-- `RuntimeManager.create_jail` and `create_bhyve`, in the modules below, and their reply.
pub mod JailSteps
pub mod Jail
pub mod BhyveSteps
pub mod Bhyve
pub mod Reply
pub mod Effect
