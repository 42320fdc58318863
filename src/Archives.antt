-- ===== src/Archives.antt =====
-- apps/api/src/modules/archives/archives.service.ts: a creator's archives, from their price to their
-- place on the marketplace.
pub mod Price
pub mod Ata
pub mod Manage
pub mod Handlers
pub mod Agreement
pub mod Terms
pub mod Publishing
pub mod Unpriced
mod Tests
