-- ===== src/Jsonrpc.antt =====
-- internal/jsonrpc: the JSON-RPC 2.0 messages.
pub mod Value
pub mod Interface
pub mod Codes
pub mod Types
pub mod Parse
mod Tests
