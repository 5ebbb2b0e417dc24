-- ===== src/Updates.antt =====
-- Updates of the mobile app from signed releases (apps/mobile/src/features/updates/services).
pub mod Text
pub mod Version
pub mod Canonical
pub mod Manifest
mod Ordered
pub mod Release
pub mod Install
mod Hashed
mod Trusted
mod Offered
mod Installed
mod Verified
mod Deleted
mod Quoted
mod Injective
mod FileName
mod Examples
mod OfferedExamples
