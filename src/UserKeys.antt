-- ===== src/UserKeys.antt =====
-- The encrypted keys of a user (apps/server/src/features/user).
pub mod Payload
pub mod Accepted
pub mod RecordSet
pub mod Stored
pub mod Read
pub mod Repository
pub mod Lists
pub mod Quota
pub mod Requests
pub mod History
pub mod Effects
pub mod Cursor
pub mod Pages
pub mod Order
pub mod FetchAll
pub mod Boundary
pub mod Walk
pub mod Complete
pub mod AllRecords
pub mod Samples
mod Examples
