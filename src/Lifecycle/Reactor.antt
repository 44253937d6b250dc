-- ===== src/Lifecycle/Reactor.antt =====
-- src/app/modules/ai/lifecycle/reactor.py: what an `item.transitioned` webhook of the flow engine
-- does.
pub mod Event
pub mod Outbox
pub mod Wake
pub mod Handle
pub mod Settled
pub mod Inferred
pub mod Redelivery
pub mod Cache
mod Tests
