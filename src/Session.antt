-- ===== src/Session.antt =====
-- The backend sessions of the server (apps/server/src/features/session/application).
pub mod Types
pub mod Tokens
pub mod MfaPolicy
pub mod Records
pub mod Create
pub mod Rotate
pub mod Validate
pub mod Families
pub mod Deletion
pub mod Reuse
pub mod Dead
pub mod Rotation
pub mod Revoked
pub mod Access
pub mod Created
pub mod TokenText
pub mod Bulk
pub mod Samples
mod Examples
