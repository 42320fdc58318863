-- ===== src/Web.antt =====
-- The library code of the web application, apps/web/src/lib: what a creator enters is checked and shown
-- before the backend sees it.
pub mod Base58
pub mod Redirect
pub mod Money
pub mod UploadFiles
pub mod Files
mod Tests
