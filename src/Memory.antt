-- ===== src/Memory.antt =====
-- The lifecycle agent's memory of one run, src/app/modules/ai/tools/lifecycle/memory.py.
pub mod Shape
pub mod Codec
pub mod Store
pub mod RoundTrip
pub mod Counting
mod Tests
