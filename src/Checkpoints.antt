-- ===== src/Checkpoints.antt =====
-- The operator's checkpoints, src/app/modules/ai/executors/lifecycle_manual_patches.py.
pub mod Payloads
pub mod Patches
pub mod Intakes
pub mod Budget
pub mod Curated
pub mod Reviews
mod Tests
