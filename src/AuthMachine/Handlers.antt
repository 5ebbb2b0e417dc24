-- ===== src/AuthMachine/Handlers.antt =====
-- The cases of `authReducer`, one function for each
-- (apps/mobile/src/features/auth/state/authStateMachine.ts).
pub mod Tests
pub mod Session
pub mod Lock
pub mod Leave
pub mod Flags
