-- ===== src/Executors.antt =====
-- The bindings of nodes to executors, src/app/modules/ai/executors.
pub mod Registry
pub mod Coverage
pub mod Laws
pub mod Bodies
pub mod Progress
mod Tests
