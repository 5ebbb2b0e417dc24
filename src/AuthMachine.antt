-- ===== src/AuthMachine.antt =====
-- The auth state machine of the mobile app (apps/mobile/src/features/auth/state/authStateMachine.ts).
pub mod State
pub mod Events
pub mod Handlers
pub mod Reducer
pub mod Prior
pub mod Secrets
pub mod Entry
pub mod Locked
mod Examples
