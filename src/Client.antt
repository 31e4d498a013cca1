-- ===== src/Client.antt =====
-- The client: what librocker_client (C) sends, and the Rust wrapper round it.
pub mod Wire
pub mod Wrapper
pub mod Reply
pub mod Io
pub mod Enter
pub mod Name
