-- ===== src/Flow.antt =====
-- The choice of the next node: src/app/modules/ai/flow_resolver.py and flow_predicates.py.
pub mod Rule
pub mod Predicates
pub mod Resolver
pub mod Plain
pub mod Targets
pub mod Endings
pub mod Errors
mod Tests
