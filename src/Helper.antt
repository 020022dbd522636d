-- ===== src/Helper.antt =====
-- cli/internal/helper: the privileged daemon.
pub mod Supervisor
pub mod Dispatch
