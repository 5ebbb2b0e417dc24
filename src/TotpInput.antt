-- ===== src/TotpInput.antt =====
-- Editing the boxes of a one-time password (apps/mobile/src/features/mfa/domain/totpEdit.ts).
pub mod Edit
pub mod Boxes
mod Examples
