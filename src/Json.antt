-- ===== src/Json.antt =====
-- The JSON values of the program: run memories, intakes and results, as Python holds them.
pub mod Value
pub mod Laws
