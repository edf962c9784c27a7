-- ===== src/Tests.antt =====
-- Instances of the theorems at fixed inputs, and runs of the definitions.
pub mod Publics
pub mod Clients
pub mod Crops
pub mod Files
pub mod Scans
pub mod HexModel
pub mod Urls
pub mod RedisModel
pub mod Shown
pub mod Requests
pub mod Owners
pub mod LuaModel
pub mod JsonModel
pub mod DbModel
pub mod DbLaws
pub mod Sessions
pub mod Connections
pub mod Identity
pub mod Templates
pub mod Albums
