-- ===== src/Json/Value.antt =====
-- JSON values as Python holds them: an object is a dict, its keys in order of insertion.
use carestechs_agent_orchest.Prelude.{
  ℕ, suc, ◌*◌, String, Bool, true, false, not, ◌&&◌, ◌||◌, Option, none, some, ◌==◌, str_eq, ltb,
  is_some, if◌then◌else◌,
}
use Prim.Native.Nat.{◌^◌}

pub data ℤ : Type 0 where
  pos negsuc : ℕ → ℤ

-- A decimal has its sign, its digits as a number, and how many of them follow the point.
mutual
  pub data Json : Type 0 where
    null : Json
    bool : Bool → Json
    int : ℤ → Json
    decimal : Bool → ℕ → ℕ → Json
    text : String → Json
    array : Items → Json
    object : Fields → Json

  pub data Items : Type 0 where
    nil : Items
    cons : Json → Items → Items

  pub data Fields : Type 0 where
    end : Fields
    field : String → Json → Fields → Fields

-- `a < b`
abbrev pub int_lt : ℤ → ℤ → Bool
int_lt (pos a) (pos b) = ltb a b
int_lt (pos a) (negsuc b) = false
int_lt (negsuc a) (pos b) = true
int_lt (negsuc a) (negsuc b) = ltb b a

-- `fields[key]`, if the key is there.
unfoldable pub lookup : String → Fields → Option Json
lookup key end = none
lookup key (field k v rest) = if str_eq k key then some v else lookup key rest

abbrev pub or_null : Option Json → Json
or_null none = null
or_null (some v) = v

-- `fields.get(key)`
unfoldable pub get : String → Fields → Json
unfolding lookup
get key fields = or_null (lookup key fields)

-- `fields[key] = value`
unfoldable pub set : String → Json → Fields → Fields
set key value end = field key value end
set key value (field k v rest) =
    if str_eq k key then field key value rest else field k v (set key value rest)

-- `fields.setdefault(key, value)`
unfoldable pub set_default : String → Json → Fields → Fields
unfolding lookup set
set_default key value fields = if is_some (lookup key fields) then fields else set key value fields

-- `fields.update(others)`, and `{**fields, **others}`
unfoldable pub merge : Fields → Fields → Fields
unfolding set
merge fields end = fields
merge fields (field k v rest) = merge (set k v fields) rest

-- `{k: v for k, v in fields.items() if k != key}`
unfoldable pub without : String → Fields → Fields
without key end = end
without key (field k v rest) =
    if str_eq k key then without key rest else field k v (without key rest)

abbrev pub is_empty : Fields → Bool
is_empty end = true
is_empty (field _ _ _) = false

-- `bool(value)`
abbrev pub is_truthy : Json → Bool
is_truthy null = false
is_truthy (bool b) = b
is_truthy (int (pos n)) = not (n == 0)
is_truthy (int (negsuc n)) = true
is_truthy (decimal _ digits _) = not (digits == 0)
is_truthy (text String.[]) = false
is_truthy (text (String.◌∷◌ _ _)) = true
is_truthy (array nil) = false
is_truthy (array (cons _ _)) = true
is_truthy (object fields) = not (is_empty fields)

abbrev pub is_null : Json → Bool
is_null null = true
is_null _ = false

-- `value == s` for a text `s`.
abbrev pub is_text : Json → String → Bool
is_text (text t) s = str_eq t s
is_text _ s = false

-- A text, a dict, where the value is one.
abbrev pub as_text : Json → Option String
as_text (text t) = some t
as_text _ = none

abbrev pub as_object : Json → Option Fields
as_object (object fields) = some fields
as_object _ = none

-- `value or {}`, for a value that is a dict or falsy.
abbrev pub or_empty : Json → Fields
or_empty (object fields) = fields
or_empty _ = end

-- The number that Python compares: sign, digits, and digits after the point. `True` is 1.
abbrev pub number_of : Json → Option (Bool × ℕ × ℕ)
number_of (bool true) = some (false, 1, 0)
number_of (bool false) = some (false, 0, 0)
number_of (int (pos n)) = some (false, n, 0)
number_of (int (negsuc n)) = some (true, suc n, 0)
number_of (decimal negative digits scale) = some (negative, digits, scale)
number_of _ = none

abbrev same_sign : Bool → Bool → Bool
same_sign true b = b
same_sign false b = not b

abbrev pub same_number : Bool × ℕ × ℕ → Bool × ℕ × ℕ → Bool
same_number (s, a, m) (t, b, n) = a * 10 ^ n == b * 10 ^ m && (same_sign s t || a == 0)

-- `a == b`, where `b` is no array and no object. Decimals are compared by their values.
unfoldable pub equals : Json → Json → Bool
equals a b = elim (number_of a) [
  | some x ↦ elim (number_of b) [ some y ↦ same_number x y | none ↦ false ]
  | none ↦ elim b [ Json.null ↦ is_null a | Json.text t ↦ is_text a t | _ ↦ false ]
]
