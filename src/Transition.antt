-- ===== src/Transition.antt =====
-- The runner of named, resumable steps (apps/server/src/core/transitions/transitionRunner.ts).
pub mod Runner
pub mod Resume
mod Examples
