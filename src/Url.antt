-- ===== src/Url.antt =====
-- src/common/hrb/URLIntent.hh and URLIntent.cc: what a URL of the server asks for.
pub mod Types
pub mod Parse
pub mod Write
pub mod Pieces
pub mod Segments
pub mod Trim
pub mod RoundTrip
pub mod Intents
pub mod Plain
