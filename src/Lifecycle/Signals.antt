-- ===== src/Lifecycle/Signals.antt =====
-- src/app/modules/ai/lifecycle/service.py: the adapters of the signals S1 to S14. The functions
-- that take a GitHub client are modelled without one, as they run when none is passed.
mod Common
mod Generation
mod Admin
mod Planning
mod Review
unfoldable pub use Common.*
unfoldable pub use Generation.*
unfoldable pub use Admin.*
unfoldable pub use Planning.*
unfoldable pub use Review.*
