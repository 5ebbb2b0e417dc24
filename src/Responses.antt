-- ===== src/Responses.antt =====
-- The runtime validation of the server's answers in the mobile app
-- (apps/mobile/src/api/request/responseSchema.ts and processResponse.ts), and the bodies that the
-- server sends (apps/server/src/features).
pub mod Fields
pub mod Types
pub mod Values
pub mod Parsers
pub mod Registry
pub mod Process
pub mod Sent
mod Known
mod Session
pub mod Records
mod Pages
mod Queries
mod Examples
