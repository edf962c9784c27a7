-- ===== src/Ownership.antt =====
-- src/server/hrb/Ownership.cc and Ownership.ipp: the blobs that a user keeps in albums.
pub mod Query
pub mod Once
pub mod Pages
pub mod Scan
pub mod Store
pub mod Others
pub mod Visible
pub mod Replies
pub mod Bounds
pub mod Reach
pub mod Move
pub mod Albums
pub mod Commands
pub mod Public
pub mod Cover
pub mod Relist
pub mod Unlink
pub mod Invariant
pub mod Link
pub mod Fields
pub mod Scripts
