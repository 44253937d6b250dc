-- ===== src/StopConditions.antt =====
-- The stop conditions of the runtime loop, src/app/modules/ai/stop_conditions.py.
pub mod Rules
pub mod Priority
mod Tests
