-- ===== src/Api.antt =====
-- internal/api: the HTTP service and its middleware.
pub mod Auth
pub mod RateLimit
pub mod App
pub mod Middleware
