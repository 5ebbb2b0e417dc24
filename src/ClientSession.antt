-- ===== src/ClientSession.antt =====
-- The app's session with the server (apps/mobile/src/api/session).
pub mod Errors
pub mod Tokens
pub mod Manager
mod Ended
mod Usable
pub mod Remote
mod Synced
mod Examples
