-- ===== src/Server.antt =====
-- What the server's features share (apps/server/src/utils, core and infrastructure).
pub mod Errors
pub mod Json
pub mod Documents
pub mod ChunkedWrites
pub mod DictStore
pub mod Batches
pub mod PagedDelete
pub mod Text
pub mod Append
mod Examples
