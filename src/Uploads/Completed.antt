-- ===== src/Uploads/Completed.antt =====
-- What `complete` has done when it returns.
pub mod Steps
pub mod Run
pub mod Archive
pub mod Refused
