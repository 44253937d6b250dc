-- ===== src/Flow/Predicates.antt =====
-- src/app/modules/ai/flow_predicates.py: the registry and its predicates. A predicate that raises is
-- `none`.
use carestechs_agent_orchest.Prelude.{
  ℕ, suc, String, Bool, true, false, not, Option, none, some, List, [], ◌∷◌, any, is_some, str_eq,
  if◌then◌else◌,
}
use Prim.Native.Nat.{◌/◌, ◌^◌}
use package.text.Mathlib.Text.{find?}
use carestechs_agent_orchest.Json.Value.{
  ℤ, pos, negsuc, int_lt, Json, null, bool, int, decimal, text, array, object, Items, nil, cons,
  Fields, end, field, lookup, get, is_truthy, is_text, is_null,
}
use carestechs_agent_orchest.Memory.Shape.{
  LifecycleMemory, LifecycleTask, TaskKind, find_current_task,
}
use carestechs_agent_orchest.Memory.Codec.{Lax}
use carestechs_agent_orchest.Memory.Store.{read_lifecycle_memory, attempts_of}

-- What the predicates read besides their arguments: pydantic's conversions, Python's `str` of a value
-- that is no text, its `int` of a text, and the setting `lifecycle_max_checkpoint_rejections`.
pub record Env : Type 0 where
  pub lax : Lax
  pub repr : Json → String
  pub int_of_text : String → Option ℤ
  pub max_checkpoint_rejections : ℤ

-- `(memory, last_dispatch_result)`
abbrev pub Predicate : Type 0
Predicate = Fields → Option Fields → Option Bool

-- `last.get(key)`, for a result that may be absent.
unfoldable pub from_last : String → Option Fields → Json
unfolding get
from_last key none = null
from_last key (some last) = get key last

-- `text in values`, `text in mapping`; other values cannot be searched.
unfoldable pub has_item : String → Items → Bool
has_item t nil = false
has_item t (cons v rest) = let later = has_item t rest in if is_text v t then true else later

unfoldable pub contains : String → Json → Option Bool
unfolding has_item lookup
contains t (object fields) = some (is_some (lookup t fields))
contains t (array values) = some (has_item t values)
contains t (text s) = some (is_some (find? s t))
contains t _ = none

-- `any(task.id not in container for task in tasks)`
unfoldable pub any_outside : Json → List LifecycleTask → Option Bool
unfolding contains
any_outside container [] = some false
any_outside container (t ∷ rest) =
    let later = any_outside container rest in
    elim (contains t.id container) [
      | none ↦ none
      | some inside ↦ if inside then later else some true
    ]

abbrev pub truncate : Bool → ℕ → ℤ
truncate true (suc n) = negsuc n
truncate _ n = pos n

module _ (env : Env) where
  unfoldable pub to_str : Json → String
  to_str (text t) = t
  to_str v = env.repr v

  -- `int(value)`
  unfoldable pub to_int : Json → Option ℤ
  to_int (bool true) = some (pos 1)
  to_int (bool false) = some (pos 0)
  to_int (int n) = some n
  to_int (decimal negative digits scale) = some (truncate negative (digits / 10 ^ scale))
  to_int (text t) = env.int_of_text t
  to_int _ = none

  abbrev with_memory : {A : Type 0} → Fields → (LifecycleMemory → Option A) → Option A
  with_memory memory use_it = elim (read_lifecycle_memory env.lax memory) [
    | none ↦ none
    | some m ↦ use_it m
  ]

  -- `memory.get("plans") or {}`
  abbrev plans_of : Fields → Json
  plans_of memory = if is_truthy (get "plans" memory) then get "plans" memory else object end

  unfoldable pub unplanned_tasks_remaining : Predicate
  unfolding read_lifecycle_memory any_outside get
  unplanned_tasks_remaining memory last =
      with_memory memory (λ m. any_outside (plans_of memory) m.tasks)

  abbrev below : ℤ → Option ℤ → Option Bool
  below n none = none
  below n (some bound) = some (int_lt n bound)

  -- `memory.get("correction_bound", 2)`
  abbrev correction_bound : Fields → Option ℤ
  correction_bound memory = elim (lookup "correction_bound" memory) [
    | none ↦ some (pos 2)
    | some v ↦ to_int v
  ]

  unfoldable pub correction_attempts_under_bound : Predicate
  unfolding read_lifecycle_memory attempts_of from_last lookup to_str to_int
  correction_attempts_under_bound memory last =
      let task_id = from_last "task_id" last in
      if is_null task_id
      then some true
      else with_memory memory
          λ m. below (attempts_of (to_str task_id) m.correction_attempts) (correction_bound memory)

  unfoldable pub tasks_remaining : Predicate
  unfolding read_lifecycle_memory any
  tasks_remaining memory last =
      with_memory memory λ m.
        some (any (λ (t : LifecycleTask). not (any (str_eq t.id) m.completed_task_ids)) m.tasks)

  unfoldable pub last_item : Items → Json
  last_item nil = null
  last_item (cons v nil) = v
  last_item (cons v (cons w rest)) = last_item (cons w rest)

  abbrev verdict_of : Json → Json
  verdict_of (object review) = get "verdict" review
  verdict_of _ = null

  abbrev in_history : Json → Json
  in_history (array reviews) = verdict_of (last_item reviews)
  in_history _ = null

  -- The two texts that a predicate takes for true and for false; another value raises.
  abbrev pub one_of : String → String → Json → Option Bool
  one_of yes_text no_text v =
      if is_text v yes_text then some true else if is_text v no_text then some false else none

  unfoldable pub review_passed : Predicate
  unfolding from_last get last_item
  review_passed memory last =
      let given = from_last "verdict" last in
      one_of "pass" "fail"
        (if is_null given then in_history (get "review_history" memory) else given)

  unfoldable pub checkpoint_approved : Predicate
  unfolding from_last
  checkpoint_approved memory last =
      let verdict = from_last "verdict" last in
      if is_null verdict then some true else one_of "approve" "reject" verdict

  -- `entry.get("attempt") or 0`, below the bound; an entry that is no dict is passed over.
  abbrev entry_below : Json → Option Bool
  entry_below (object entry) =
      let attempt = get "attempt" entry in
      elim (to_int (if is_truthy attempt then attempt else int (pos 0))) [
        | none ↦ none
        | some n ↦ some (int_lt n env.max_checkpoint_rejections)
      ]
  entry_below _ = some true

  unfoldable pub entries_below : Fields → Option Bool
  unfolding get to_int
  entries_below end = some true
  entries_below (field k v rest) =
      let later = entries_below rest in
      elim (entry_below v) [ none ↦ none | some low ↦ if low then later else some false ]

  abbrev rejections_below : Json → Option Bool
  rejections_below (object entries) = entries_below entries
  rejections_below _ = some true

  unfoldable pub checkpoint_rejections_under_bound : Predicate
  unfolding entries_below get
  checkpoint_rejections_under_bound memory last = rejections_below (get "rejections" memory)

  abbrev is_mockup : Option LifecycleTask → Bool
  is_mockup none = false
  is_mockup (some t) = elim t.kind [ TaskKind.mockup ↦ true | _ ↦ false ]

  unfoldable pub current_task_is_mockup : Predicate
  unfolding read_lifecycle_memory find_current_task
  current_task_is_mockup memory last =
      with_memory memory (λ m. some (is_mockup (find_current_task m)))

  unfoldable pub validator_passed : Predicate
  unfolding from_last
  validator_passed memory last =
      let passed = from_last "passed" last in
      if is_null passed then some true else some (is_truthy passed)

  unfoldable pub task_rejected : Predicate
  task_rejected memory none = none
  task_rejected memory (some last) = one_of "rejected" "approved" (get "outcome" last)

  -- `_REGISTRY`, in the order of registration.
  unfoldable pub registry : List (String × Predicate)
  unfolding unplanned_tasks_remaining correction_attempts_under_bound tasks_remaining review_passed
      checkpoint_approved checkpoint_rejections_under_bound current_task_is_mockup validator_passed
      task_rejected
  registry =
      ("unplanned_tasks_remaining", unplanned_tasks_remaining)
      ∷ ("correction_attempts_under_bound", correction_attempts_under_bound)
      ∷ ("tasks_remaining", tasks_remaining)
      ∷ ("review_passed", review_passed)
      ∷ ("checkpoint_approved", checkpoint_approved)
      ∷ ("checkpoint_rejections_under_bound", checkpoint_rejections_under_bound)
      ∷ ("current_task_is_mockup", current_task_is_mockup)
      ∷ ("validator_passed", validator_passed)
      ∷ ("task_rejected", task_rejected)
      ∷ []

-- `register`: a name that is there already is a `ValueError`.
unfoldable pub get_predicate : String → List (String × Predicate) → Option Predicate
get_predicate name [] = none
get_predicate name ((k, p) ∷ rest) = if str_eq k name then some p else get_predicate name rest

unfoldable pub register :
    String → Predicate → List (String × Predicate) → Option (List (String × Predicate))
unfolding get_predicate
register name p known = elim (get_predicate name known) [
  | some _ ↦ none
  | none ↦ some (known_with known)
]
  where
    known_with : List (String × Predicate) → List (String × Predicate)
    known_with [] = (name, p) ∷ []
    known_with (entry ∷ rest) = entry ∷ known_with rest
