-- ===== src/Marketplace.antt =====
-- apps/api/src/modules/marketplace/marketplace.service.ts and
-- apps/api/src/modules/analytics/analytics.service.ts: what the public and the creators see.
pub mod Pages
pub mod Views
pub mod Revenue
mod Tests
