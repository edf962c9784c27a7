-- ===== src/Handler.antt =====
-- src/server/hrb/SessionHandler.cc and SessionHandler.ipp: what the server does with a request.
pub mod Publics
pub mod Request
pub mod Header
pub mod Blob
pub mod Repair
pub mod Serve
pub mod Verified
pub mod Owner
pub mod Body
