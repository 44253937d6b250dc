-- ===== src/Flow/Plain.antt =====
-- An environment for the tests: only integers are read as `int`, only Booleans as `bool`.
use carestechs_agent_orchest.Prelude.{Bool, Option, none, some}
use carestechs_agent_orchest.Json.Value.{ℤ, pos, Json, bool, int}
use carestechs_agent_orchest.Memory.Codec.{Lax}
use carestechs_agent_orchest.Flow.Predicates.{Env}

abbrev strict_int : Json → Option ℤ
strict_int (int n) = some n
strict_int _ = none

abbrev strict_bool : Json → Option Bool
strict_bool (bool b) = some b
strict_bool _ = none

abbrev pub strict : Lax
strict = record { to_int = strict_int; to_bool = strict_bool }

abbrev pub plain : Env
plain = record {
  lax = strict;
  repr = λ _. "";
  int_of_text = λ _. none;
  max_checkpoint_rejections = pos 2;
}
