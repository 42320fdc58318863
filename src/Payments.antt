-- ===== src/Payments.antt =====
-- apps/api/src/modules/payments: payment intents, Solana Pay transactions and their verification.
pub mod Economics
pub mod Checks
pub mod Create
pub mod Issue
pub mod Evidence
pub mod Commit
pub mod Verify
pub mod Handlers
pub mod Ledger
mod Tests
