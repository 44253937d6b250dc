-- ===== src/Dispatch.antt =====
-- The executor invocations of src/app/modules/ai/models.py and their state machine.
pub mod Row
pub mod Machine
mod Tests
