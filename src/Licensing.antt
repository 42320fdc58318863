-- ===== src/Licensing.antt =====
-- apps/api/src/modules/licensing/licensing.service.ts: the license of a paid archive on one device.
pub mod Request
pub mod Authority
pub mod Seal
pub mod Activate
pub mod Refresh
pub mod Handlers
pub mod Device
pub mod Replay
pub mod Granted
pub mod Atomic
pub mod Sound
pub mod Authorized
pub mod Activated
mod Tests
