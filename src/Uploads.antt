-- ===== src/Uploads.antt =====
-- apps/api/src/modules/uploads/uploads.service.ts: a creator uploads a ZIP for an archive, and the
-- backend inspects it, builds the container and seals its key.
pub mod Owned
pub mod Scan
pub mod Complete
pub mod Handlers
pub mod Scanned
pub mod Opened
pub mod Frozen
pub mod Completed
mod Tests
