-- ===== src/Json/Laws.antt =====
-- Dicts: what is read after a write.
use carestechs_agent_orchest.Prelude.{
  String, ◌≡◌, refl, some, if◌then◌else◌, str_eq, str_eq_iff, str_eq_refl, arith, false,
}
use carestechs_agent_orchest.Json.Value.{Json, Fields, end, field, lookup, set, without, is_empty}

pub lookup-set :
    (key other : String) (value : Json) (fields : Fields)
    → lookup other (set key value fields)
      ≡ (if str_eq key other then some value else lookup other fields)
unfolding lookup set
lookup-set key other value end = refl
lookup-set key other value (field k v rest) = ground (
  arith,
  str_eq_iff key other,
  str_eq_iff k key,
  str_eq_iff k other,
  lookup-set key other value rest,
)

pub lookup-set_same :
    (key : String) (value : Json) (fields : Fields) → lookup key (set key value fields) ≡ some value
lookup-set_same key value fields = ground (arith, lookup-set key key value fields, str_eq_refl key)

pub lookup-set_other :
    (key other : String) (value : Json) (fields : Fields)
    → str_eq key other ≡ false
    → lookup other (set key value fields) ≡ lookup other fields
lookup-set_other key other value fields h = ground (arith, lookup-set key other value fields)

pub lookup-without :
    (key other : String) (fields : Fields)
    → str_eq key other ≡ false
    → lookup other (without key fields) ≡ lookup other fields
unfolding lookup without
lookup-without key other end h = refl
lookup-without key other (field k v rest) h = ground (
  arith,
  str_eq_iff key other,
  str_eq_iff k key,
  str_eq_iff k other,
  lookup-without key other rest h,
)

pub is_empty-set :
    (key : String) (value : Json) (fields : Fields) → is_empty (set key value fields) ≡ false
unfolding set
is_empty-set key value end = refl
is_empty-set key value (field k v rest) = ground arith
