-- ===== src/Server.antt =====
-- rocker_server/src/main.rs
pub mod Request
pub mod Worker
pub mod Reaper
pub mod Socket
pub mod History
pub mod System
