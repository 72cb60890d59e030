-- ===== src/Runenv.antt =====
-- internal/runenv: isolated Compose projects for demonstrations and measurements.
pub mod DeploymentConfig
pub mod Shell
pub mod Stack
pub mod Startup
pub mod Demo
pub mod Access
