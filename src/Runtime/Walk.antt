-- ===== src/Runtime/Walk.antt =====
-- The steps of a whole run: a path in the flow, and no more of them than the budget.
use carestechs_agent_orchest.Prelude.{
  ℕ, zero, suc, ◌≤◌, String, Bool, true, false, ◌==◌, Option, none, some, [], ◌∷◌, ◌≡◌, ◌⊎◌, inl,
  inr, refl, sym, ap, subst, ◌∙◌, arith, if◌then◌else◌, Bool-cases, map, some-injective,
}
use carestechs_agent_orchest.Enums.Runtime.{StopReason}
use carestechs_agent_orchest.Json.Value.{Json, null, text, end, Fields, get, as_text}
use carestechs_agent_orchest.Flow.Resolver.{
  Declaration, Decision, Resolved, resolved, raised, resolve_next,
}
use carestechs_agent_orchest.Flow.Targets.{Target, resolve_next-Target, as_text_sound}
use carestechs_agent_orchest.Runtime.State.{World}
use carestechs_agent_orchest.Runtime.Turns.{Turn}
use carestechs_agent_orchest.Runtime.Status.{terminate, mark_running}
use carestechs_agent_orchest.Runtime.Bookkeeping.{Snapshot, data_of, bookkeeping_of, read_state}
use carestechs_agent_orchest.Runtime.Setup.{Setup, Exit, happen}
use carestechs_agent_orchest.Runtime.Node.{execute_node}
use carestechs_agent_orchest.Runtime.Loop.{
  Iteration, goes_on, returns, hangs, after_node, enter, follow, decide, over_budget, iterate, loop,
  run_deterministic_loop,
}
use carestechs_agent_orchest.Runtime.Frames.{log, entry_of, happen-Frame, terminate-Frame}
use carestechs_agent_orchest.Runtime.Ends.{Iteration-cases}
use carestechs_agent_orchest.Runtime.Trail.{
  last_node, Trail, start, step, Stands, place, place-read_state, Stands-happen, Enters,
  execute_node-Enters,
}

-- A number of steps that the budget allows; none is set at 0.
abbrev pub Affordable : Setup → ℕ → Type 0
Affordable setup n = (setup.max_steps ≡ 0) ⊎ (n ≤ setup.max_steps)

pub record Walk (setup : Setup) (n : ℕ) (w : World) : Type 0 where
  pub trail : Trail setup.declaration n (log w)
  pub affordable : Affordable setup n

Walk-log :
    (setup : Setup) (n : ℕ) (w w' : World) → log w' ≡ log w → Walk setup n w → Walk setup n w'
Walk-log setup n w w' e walk = record {
  trail = subst (Trail setup.declaration n) (sym e) walk.trail;
  affordable = walk.affordable;
}

module _ (setup : Setup) (turn : Turn) (count : ℕ) where
  -- What an iteration comes to, after `count` steps.
  abbrev Walks : Iteration → Type 0
  Walks (returns w) = (n : ℕ) × Walk setup n w
  Walks (hangs w) = (n : ℕ) × Walk setup n w
  Walks (goes_on w) = Walk setup (suc count) w × Stands setup.declaration w

  stop-Walks :
      (n : ℕ) (reason : StopReason) (more : Fields) (w : World)
      → Walk setup n w
      → Walks (returns (terminate reason more turn.ended_at w))
  stop-Walks n reason more w walk =
      (n, Walk-log setup n w _ (terminate-Frame reason more turn.ended_at w).steps walk)

  Walks-if :
      (b : Bool) (i j : Iteration) → Walks i → (b ≡ false → Walks j) → Walks (if b then i else j)
  Walks-if true i j x y = x
  Walks-if false i j x y = y refl

  one_more :
      (node : String) (w w' : World)
      → Walk setup count w
      → over_budget setup turn count ≡ false
      → Target (text node) (get (last_node setup.declaration (log w)) setup.declaration.transitions)
      → log w' ≡ (suc count, node) ∷ log w
      → Walk setup (suc count) w'
  one_more node w w' walk b t e = record {
    trail =
        subst (Trail setup.declaration (suc count)) (sym e) (step count node (log w) walk.trail t);
    affordable = elim (Bool-cases (setup.max_steps == 0)) [
      | inl z ↦ inl (ground arith)
      | inr p ↦ inr (ground arith)
    ];
  }

  after_node-Walks :
      (node : String) (w : World) (r : Exit × World)
      → Walk setup count w
      → over_budget setup turn count ≡ false
      → Target (text node) (get (last_node setup.declaration (log w)) setup.declaration.transitions)
      → Enters setup.declaration (suc count) node w r
      → Walks (after_node setup turn r)
  after_node-Walks node w (Exit.done, w') walk b t enters =
      let (e, st) = enters.stands refl in (one_more node w w' walk b t e, st)
  after_node-Walks node w (Exit.cancelled, w') walk b t enters = elim enters.steps [
    | inl e ↦ stop-Walks count _ _ w' (Walk-log setup count w w' e walk)
    | inr e ↦ stop-Walks (suc count) _ _ w' (one_more node w w' walk b t e)
  ]
  after_node-Walks node w (Exit.crashed, w') walk b t enters = elim enters.steps [
    | inl e ↦ stop-Walks count _ _ w' (Walk-log setup count w w' e walk)
    | inr e ↦ stop-Walks (suc count) _ _ w' (one_more node w w' walk b t e)
  ]
  after_node-Walks node w (Exit.hung, w') walk b t enters = elim enters.steps [
    | inl e ↦ (count, Walk-log setup count w w' e walk)
    | inr e ↦ (suc count, one_more node w w' walk b t e)
  ]

  enter-Walks :
      (v : Json) (o : Option String) (w : World)
      → as_text v ≡ o
      → Walk setup count w
      → over_budget setup turn count ≡ false
      → Target v (get (last_node setup.declaration (log w)) setup.declaration.transitions)
      → Walks (enter setup turn count o w)
  enter-Walks v none w e walk b t = stop-Walks count _ _ w walk
  enter-Walks v (some node) w e walk b t =
      after_node-Walks node w (execute_node setup turn (suc count) node w) walk b
        (subst
          (λ u. Target u (get (last_node setup.declaration (log w)) setup.declaration.transitions))
          (as_text_sound v node e) t)
        (execute_node-Enters setup turn (suc count) node w)

  follow-Walks :
      (s : Snapshot) (r : Resolved Decision) (w : World)
      → resolve_next setup.env s.memory s.last_result setup.declaration s.current_node ≡ r
      → s.current_node ≡ last_node setup.declaration (log w)
      → Walk setup count w
      → over_budget setup turn count ≡ false
      → Walks (follow setup turn count r w)
  follow-Walks s (raised x) w e n walk b = stop-Walks count _ _ w walk
  follow-Walks s (resolved (Decision.terminal reason)) w e n walk b = stop-Walks count _ _ w walk
  follow-Walks s (resolved (Decision.next_node v)) w e n walk b =
      enter-Walks v (as_text v) w refl walk b (
        subst (λ x. Target v (get x setup.declaration.transitions)) n
          (resolve_next-Target setup.env s.memory s.last_result setup.declaration s.current_node v
            e).0)

  decide-Walks :
      (o : Option Snapshot) (w : World)
      → read_state setup.declaration.entry_node (data_of w) ≡ o
      → Stands setup.declaration w
      → Walk setup count w
      → over_budget setup turn count ≡ false
      → Walks (decide setup turn count o w)
  decide-Walks none w e st walk b = stop-Walks count _ _ w walk
  decide-Walks (some s) w e st walk b =
      follow-Walks s _ w refl
        (st.at s.current_node (place-read_state setup.declaration.entry_node (data_of w) s e)) walk
        b

  iterate-Walks :
      (w : World)
      → Walk setup count w
      → Stands setup.declaration w
      → Walks (iterate setup turn count w)
  unfolding iterate
  iterate-Walks w walk st =
      let later = happen turn.dispatch_id turn.before w in
      let kept =
        Walk-log setup count w later (happen-Frame turn.dispatch_id turn.before w).steps walk in
      let stands = Stands-happen setup.declaration turn.dispatch_id turn.before w st in
      Walks-if turn.cancel_seen _ _ (stop-Walks count StopReason.cancelled end later kept) λ _.
        Walks-if (over_budget setup turn count) _ _
          (stop-Walks count StopReason.budget_exceeded end later kept)
          λ b.
            decide-Walks (read_state setup.declaration.entry_node (data_of later)) later refl stands
              kept b

place-fresh :
    (entry_node : String) (whole : Fields)
    → get "__feat009" whole ≡ null
    → place entry_node whole ≡ some entry_node
unfolding place bookkeeping_of
place-fresh entry_node whole h = ground (arith, h)

at_entry :
    (d : Declaration) (w : World)
    → w.steps ≡ []
    → get "__feat009" (data_of w) ≡ null
    → Stands d (mark_running w)
unfolding mark_running
at_entry d w none_yet fresh = record {
  at = λ v h.
      some-injective v d.entry_node (sym h ∙ place-fresh d.entry_node (data_of w) fresh)
      ∙ ap (λ steps. last_node d (map entry_of steps)) (sym none_yet);
}

module _ (setup : Setup) (turns : ℕ → Turn) where
  loop-Walk :
      (fuel count : ℕ) (w w' : World)
      → Walk setup count w
      → Stands setup.declaration w
      → loop setup turns fuel count w ≡ some w'
      → (n : ℕ) × Walk setup n w'
  unfolding loop
  loop-Walk zero count w w' walk st h = ground arith
  loop-Walk (suc fuel) count w w' walk st h =
      elim (Iteration-cases (iterate setup (turns count) count w)) [
        | inl (v, e) ↦
            let (n, last) =
              subst (Walks setup (turns count) count) e
                (iterate-Walks setup (turns count) count w walk st) in
            (n, subst (Walk setup n) (ground (arith, e, h)) last)
        | inr (inr (v, e)) ↦ ground (arith, e, h)
        | inr (inl (v, e)) ↦
            let (next, st') =
              subst (Walks setup (turns count) count) e
                (iterate-Walks setup (turns count) count w walk st) in
            loop-Walk fuel (suc count) v w' next st' (ground (arith, e, h))
      ]

  -- A run that starts without steps and without bookkeeping has, when its loop returns, steps that are
  -- numbered from 1 without a gap, as many as its budget at most, and that follow the flow: the first is
  -- at a target that the transition of the entry node declares, and each other at one that the
  -- transition of its predecessor's node declares. This holds whatever the executors answer and the
  -- other tasks do. A node with an empty name counts as the entry node.
  pub run_deterministic_loop-Walk :
      (fuel : ℕ) (w w' : World)
      → w.steps ≡ []
      → get "__feat009" (data_of w) ≡ null
      → run_deterministic_loop setup turns fuel w ≡ some w'
      → (n : ℕ) × Walk setup n w'
  unfolding run_deterministic_loop mark_running
  run_deterministic_loop-Walk fuel w w' none_yet fresh h =
      loop-Walk fuel 0 (mark_running w) w' begin (at_entry setup.declaration w none_yet fresh) h
    where
      begin : Walk setup 0 (mark_running w)
      begin = record {
        trail =
            subst (λ steps. Trail setup.declaration 0 (map entry_of steps)) (sym none_yet) start;
        affordable = inr (ground arith);
      }
