-- ===== src/Signer.antt =====
-- internal/signer: transactions, their decoding and the signers.
pub mod Transaction
pub mod Decode
pub mod Params
pub mod Mpc
pub mod MultiKey
pub mod Tests
