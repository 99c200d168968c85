-- ===== src/Cli.antt =====
-- cmd/web3signer: the command line.
pub mod Flags
pub mod Run
mod Tests
