-- ===== src/Crypto.antt =====
-- The cryptographic checks of apps/api/src/crypto that the services call.
pub mod DeviceKey
pub mod Custody
pub mod Wrap
pub mod Token32
mod Tests
