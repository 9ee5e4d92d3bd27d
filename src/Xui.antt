-- ===== src/Xui.antt =====
-- xui/: the client of a 3x-ui panel.
pub mod Fragment
pub mod Payload
pub mod Flow
pub mod Links
pub mod Session
pub mod Client
pub mod Calls
pub mod Delivery
pub mod Interface
