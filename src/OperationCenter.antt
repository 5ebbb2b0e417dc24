-- ===== src/OperationCenter.antt =====
-- The registry of long-running operations (apps/mobile/src/app/state/operationCenterState.ts). Ids,
-- titles, phases and results are texts; a result is its serialized form. Sizes are natural numbers.
pub mod State
pub mod Filters
pub mod Pruned
mod Examples
