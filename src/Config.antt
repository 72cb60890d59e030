-- ===== src/Config.antt =====
-- internal/config: what the programs read from their environment.
pub mod ApiKeys
pub mod Runtime
