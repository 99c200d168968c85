-- ===== src/Server.antt =====
-- internal/server: what stands before the router.
pub mod Auth
pub mod Cors
pub mod Engine
pub mod Builder
pub mod Lifecycle
pub mod Tests
