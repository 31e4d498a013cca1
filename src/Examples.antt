-- ===== src/Examples.antt =====
-- The theorems at concrete inputs, and runs of the code.
pub mod Logs
pub mod Loops
pub mod Replies
pub mod Setups
pub mod Inputs
pub mod Requests
pub mod Guards
pub mod Workers
pub mod Systems
pub mod Served
pub mod Refused
pub mod Names
pub mod Times
pub mod Wrappers
