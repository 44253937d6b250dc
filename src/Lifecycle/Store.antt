-- ===== src/Lifecycle/Store.antt =====
-- The database session that the lifecycle functions work on: the tables of
-- src/app/modules/ai/models.py as lists of rows, newest first, with the constraints that an
-- INSERT checks, and the calls that went out to the flow engine.
mod Rows
mod State
mod Inserts
mod Engine
pub use Rows.*
unfoldable pub use State.*
unfoldable pub use Inserts.*
unfoldable pub use Engine.*
