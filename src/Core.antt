-- ===== src/Core.antt =====
-- core/src: the configuration of a rocker, the guard process and its set-up.
pub mod Utils
pub mod Loop
pub mod Setup
pub mod Name
pub mod Mounts
pub mod Guard
pub mod Init
pub mod Resource
pub mod Errors
pub mod Log
