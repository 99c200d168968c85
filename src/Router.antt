-- ===== src/Router.antt =====
-- internal/router: the handlers of the methods, the table that routes to them, and HTTP.
pub mod Responses
pub mod Node
pub mod SignHandler
pub mod ForwardHandler
pub mod Table
pub mod Forwarding
pub mod Http
pub mod Factory
pub mod Batch
pub mod Tests
