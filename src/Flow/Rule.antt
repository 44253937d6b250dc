-- ===== src/Flow/Rule.antt =====
-- src/app/modules/ai/flow_resolver.py: the expressions `result.<field> <op> <literal>` of a branch's
-- rule. Each part of the pattern can match in one way only, so that it is read from left to right.
use carestechs_agent_orchest.Prelude.{
  ℕ, suc, ◌+◌, ◌-◌, ◌*◌, String, Bool, true, false, not, ◌&&◌, ◌||◌, Option, none, some, leb, ◌==◌,
  is_space, is_blank, if◌then◌else◌,
}
use Prim.Native.Char.{Char, code}
use carestechs_agent_orchest.Json.Value.{
  ℤ, pos, negsuc, Json, null, bool, int, decimal, text, Fields, get, equals,
}

pub data Op : Type 0 where
  eq ne : Op

pub record Expression : Type 0 where
  pub name : String
  pub op : Op
  pub literal : Json

infixl 5 ◌>>=◌
abbrev ◌>>=◌ : {A B : Type 0} → Option A → (A → Option B) → Option B
none >>= f = none
some a >>= f = f a

abbrev between : ℕ → ℕ → Char → Bool
between low high c = leb low (code c) && leb (code c) high

-- `[A-Za-z_]`, `\d` on ASCII, and `[A-Za-z0-9_]`.
abbrev pub is_letter : Char → Bool
is_letter c = between 65 90 c || between 97 122 c || code c == 95

abbrev pub is_digit : Char → Bool
is_digit c = between 48 57 c

abbrev pub is_word : Char → Bool
is_word c = is_letter c || is_digit c

-- `\s*`
unfoldable pub skip_space : String → String
unfolding is_space
skip_space String.[] = ""
skip_space (String.◌∷◌ c s) =
    let rest = skip_space s in if is_space (code c) then rest else String.◌∷◌ c s

-- What follows the given text.
unfoldable pub after : String → String → Option String
after String.[] s = some s
after (String.◌∷◌ p ps) String.[] = none
after (String.◌∷◌ p ps) (String.◌∷◌ c s) = if code p == code c then after ps s else none

-- The longest start of word characters, and what follows it.
unfoldable pub word : String → String × String
word String.[] = ("", "")
word (String.◌∷◌ c s) =
    let rest = word s in if is_word c then (String.◌∷◌ c rest.0, rest.1) else ("", String.◌∷◌ c s)

-- `[A-Za-z_][A-Za-z0-9_]*`
unfoldable pub identifier : String → Option (String × String)
unfolding word
identifier String.[] = none
identifier (String.◌∷◌ c s) =
    if is_letter c then some (String.◌∷◌ c (word s).0, (word s).1) else none

unfoldable pub operator : String → Option (Op × String)
unfolding after
operator s = elim (after "==" s) [
  | some rest ↦ some (Op.eq, rest)
  | none ↦ elim (after "!=" s) [ some rest ↦ some (Op.ne, rest) | none ↦ none ]
]

-- What stands before the quote, where the quote is the last character but for white space.
unfoldable pub quoted : ℕ → String → Option String
unfolding is_blank
quoted quote String.[] = none
quoted quote (String.◌∷◌ c s) =
    let rest = quoted quote s in
    if code c == quote
    then (if is_blank s then some "" else none)
    else (rest >>= λ t. some (String.◌∷◌ c t))

-- Digits: their number, how many they are, and what follows.
unfoldable pub digits : ℕ → ℕ → String → ℕ × ℕ × String
digits value size String.[] = (value, size, "")
digits value size (String.◌∷◌ c s) =
    let rest = digits (value * 10 + (code c - 48)) (suc size) s in
    if is_digit c then rest else (value, size, String.◌∷◌ c s)

abbrev pub signed : Bool → ℕ → ℤ
signed true (suc n) = negsuc n
signed _ n = pos n

-- `\d+(?:\.\d+)?\s*$`, read by `int` or by `float`.
unfoldable pub number : Bool → String → Option Json
unfolding digits is_blank after
number negative s =
    let (whole, size, rest) = digits 0 0 s in
    if size == 0
    then none
    else if is_blank rest
    then some (int (signed negative whole))
    else elim (after "." rest) [
      | none ↦ none
      | some tail ↦
          let (all_digits, scale, last) = digits whole 0 tail in
          if scale == 0 || not (is_blank last)
          then none
          else some (decimal negative all_digits scale)
    ]

abbrev if_last : Json → Option String → Option Json
if_last value none = none
if_last value (some rest) = if is_blank rest then some value else none

infixl 6 ◌or_else◌
abbrev ◌or_else◌ : {A : Type 0} → Option A → Option A → Option A
none or_else o = o
some a or_else o = some a

-- The literal that ends the rule, as `_parse_literal` reads it.
unfoldable pub literal : String → Option Json
unfolding quoted number after is_blank
literal s =
    (after "'" s >>= λ rest. quoted 39 rest >>= λ t. some (text t))
    or_else (after "\"" s >>= λ rest. quoted 34 rest >>= λ t. some (text t))
    or_else if_last (bool true) (after "true" s)
    or_else if_last (bool false) (after "false" s)
    or_else if_last null (after "null" s)
    or_else (after "-" s >>= number true)
    or_else number false s

-- `_EXPR_RE.match(rule)` and `_parse_literal`
unfoldable pub parse : String → Option Expression
unfolding skip_space after identifier operator literal
parse rule = do
  rest ← after "result." (skip_space rule)
  (name, more) ← identifier rest
  (op, right) ← operator (skip_space more)
  value ← literal (skip_space right)
  some (record { name = name; op = op; literal = value })

-- `_evaluate_expression`, once there is a result.
unfoldable pub holds : Expression → Fields → Bool
unfolding get equals
holds e last = elim e.op [
  | Op.eq ↦ equals (get e.name last) e.literal
  | Op.ne ↦ not (equals (get e.name last) e.literal)
]
