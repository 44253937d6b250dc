-- ===== src/Lifecycle.antt =====
-- src/app/modules/ai/lifecycle: the deterministic lifecycle of work items and tasks.
pub mod Store
pub mod Matrix
pub mod Tasks
pub mod WorkItems
pub mod Idempotency
pub mod Signals
pub mod Declarations
pub mod Derivations
pub mod Delivery
pub mod Reactor
pub mod Reconciliation
pub mod Transitions
mod Fixtures
mod Tests
