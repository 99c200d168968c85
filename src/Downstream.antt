-- ===== src/Downstream.antt =====
-- internal/downstream: the client of the Ethereum node.
pub mod Wire
pub mod Client
pub mod Ids
mod Tests
