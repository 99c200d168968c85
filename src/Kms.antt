-- ===== src/Kms.antt =====
-- internal/kms: the client of the MPC-KMS.
pub mod Types
pub mod Wire
pub mod Signing
pub mod Requests
pub mod Client
pub mod Summary
mod Tests
