-- ===== src/Bitmap.antt =====
-- The bitmap of crates/athera-bitmap/src/lib.rs.
pub mod Words
pub mod Map
pub mod View
mod Tests
