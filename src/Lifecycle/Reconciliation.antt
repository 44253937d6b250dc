-- ===== src/Lifecycle/Reconciliation.antt =====
-- src/app/modules/ai/lifecycle/reconciliation.py: the drain of the outbox rows whose webhook never
-- came.
pub mod Drain
pub mod Report
mod Tests
