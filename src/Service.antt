-- ===== src/Service.antt =====
-- internal/service: the health, the diagnostics and the life of a process.
pub mod Health
pub mod Diagnostics
pub mod Lifecycle
pub mod Logging
