-- ===== src/Mfa.antt =====
-- Multi-factor authentication of the server (apps/server/src/features/mfa/application).
pub mod Types
pub mod RecoveryCodes
pub mod SetupNonce
pub mod Verify
pub mod SingleUse
mod NonceCalls
pub mod Nonces
pub mod Proof
pub mod SessionService
pub mod Compensation
pub mod Enable
pub mod Enabling
pub mod TransitionStore
pub mod StoredProgress
mod Examples
mod TransitionExamples
