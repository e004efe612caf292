-- ===== src/Realtime.antt =====
-- The realtime conversation: apps/api/src/realtime.
pub mod Validate
pub mod Checked
pub mod Agent
pub mod Relay
pub mod Stream
