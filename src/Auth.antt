-- ===== src/Auth.antt =====
-- apps/api/src/modules/auth/auth.service.ts: a wallet logs in by signing a challenge.
pub mod Login
pub mod Challenge
mod Tests
