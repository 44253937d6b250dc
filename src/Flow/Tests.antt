-- ===== src/Flow/Tests.antt =====
-- The end of the lifecycle flow: a review, its branch, and the terminal node.
use carestechs_agent_orchest.Prelude.{
  String, true, false, Option, none, some, [], ◌∷◌, any, str_eq, ◌≡◌, ◌⊎◌, ◌↔◌, refl,
}
use carestechs_agent_orchest.Flow.Plain.{plain}
use carestechs_agent_orchest.Json.Value.{
  Json, text, array, object, nil, cons, Fields, end, field, get,
}
use carestechs_agent_orchest.Flow.Resolver.{
  Declaration, Decision, FlowError, resolved, resolve_next, asks_to_stop, terminal_reason,
}
use carestechs_agent_orchest.Flow.Targets.{Target, resolve_next-Target}
use carestechs_agent_orchest.Flow.Endings.{resolve_next-terminal}
use carestechs_agent_orchest.Flow.Errors.{is_complete, AtRunTime, resolve_next-AtRunTime}

abbrev branch : Json
branch = object (
    field "rule" (text "result.verdict == 'pass'")
      (field "true" (text "close_work_item") (field "false" (text "corrections") end)))

abbrev flow : Declaration
flow = record {
  entry_node = "load_work_item";
  terminal_nodes = "close_work_item" ∷ [];
  transitions =
      field "review_implementation" (object (field "branch" branch end))
        (field "load_work_item" (array (cons (text "review_implementation") nil)) end);
}

abbrev done : String
done = "done_node"

abbrev passed : Option Fields
passed = some (field "verdict" (text "pass") end)

resolve_next-Target_example :
    Target (text "close_work_item") (get "review_implementation" flow.transitions)
    × (asks_to_stop plain end passed ≡ false)
    × (any (str_eq "review_implementation") flow.terminal_nodes ≡ false)
unfolding resolve_next
resolve_next-Target_example =
    resolve_next-Target plain end passed flow "review_implementation" (text "close_work_item") refl

resolve_next-terminal_example :
    (resolve_next plain end passed flow "close_work_item" ≡ resolved (Decision.terminal done)) ↔ (
      ((asks_to_stop plain end passed ≡ true) × (done ≡ terminal_reason plain end passed))
      ⊎ ((asks_to_stop plain end passed ≡ false)
          × (done ≡ done)
          × ((any (str_eq "close_work_item") flow.terminal_nodes ≡ true)
              ⊎ (get "close_work_item" flow.transitions ≡ array nil))))
resolve_next-terminal_example = resolve_next-terminal plain end passed flow "close_work_item" done

resolve_next-AtRunTime_example : AtRunTime none FlowError.no_result
unfolding is_complete resolve_next
resolve_next-AtRunTime_example =
    resolve_next-AtRunTime plain end none flow "review_implementation" FlowError.no_result refl refl
