-- ===== src/Supervisor.antt =====
-- The supervisor of the run loops in one process, src/app/modules/ai/supervisor.py.
pub mod State
pub mod Calls
pub mod Heap
pub mod Kept
pub mod Futures
pub mod Ended
mod Tests
