-- ===== src/Runtime.antt =====
-- The loop of an agent with a deterministic policy, src/app/modules/ai/runtime_deterministic.py.
pub mod State
pub mod Turns
pub mod Status
pub mod Bookkeeping
pub mod Setup
pub mod Node
pub mod Loop
pub mod Frames
pub mod Hangs
pub mod Ends
pub mod Kept
pub mod Trail
pub mod Walk
pub mod Dispatches
pub mod Tended
mod Tests
