-- ===== src/Redis.antt =====
-- The client of redis: its replies, and the connection that matches them with commands.
pub mod Number
pub mod Reply
pub mod Connection
pub mod Runs
pub mod Order
pub mod Closing
pub mod Reads
pub mod Reach
pub mod Transaction
