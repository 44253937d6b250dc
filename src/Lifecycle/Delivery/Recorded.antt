-- ===== src/Lifecycle/Delivery/Recorded.antt =====
-- A signal that was answered without an error has its key recorded.
use carestechs_agent_orchest.Prelude.{
  ℕ, String, ◌≡◌, refl, Bool, true, Option, Result, ok, err, arith, find, is_some, str_eq_refl,
  Keeps, keeps_rules, ◌>>=◌,
}
use carestechs_agent_orchest.Enums.Lifecycle.{ActorRole, AssigneeType}
use carestechs_agent_orchest.Lifecycle.Store.{Ctx, Db, Session, Action, commit}
use carestechs_agent_orchest.Lifecycle.Idempotency.{has_key, check_and_record}
use carestechs_agent_orchest.Lifecycle.WorkItems.{
  load_work_item, lock_work_item, unlock_work_item, close_work_item, maybe_advance_to_in_progress,
  maybe_advance_to_ready,
}
use carestechs_agent_orchest.Lifecycle.Signals.{
  guarded_work_item_signal, lock_work_item_signal, unlock_work_item_signal, close_work_item_signal,
  approve_task_signal, reject_task_signal, assign_task_signal, defer_task_signal,
  submit_plan_signal, approve_plan_signal, reject_plan_signal, submit_implementation_signal,
  approve_review_signal, reject_review_signal,
}
use carestechs_agent_orchest.Lifecycle.Delivery.Requests.{
  lock, unlock, close, approve_task, reject_task, assign_task, defer_task, submit_plan,
  approve_plan, reject_plan, submit_implementation, approve_review, reject_review, signal_key,
}
use carestechs_agent_orchest.Lifecycle.Delivery.Frames.{
  Both, IgnoresTasks, commit-Keeps, with_correlation-Keeps, enqueue_aux-Keeps, load_task-Keeps,
  insert_plan-Keeps, insert_implementation-Keeps,
}
use carestechs_agent_orchest.Lifecycle.Delivery.TaskFrames.{
  approve_task-Keeps, reject_task_proposal-Keeps, assign_task-Keeps, submit_plan-Keeps,
  approve_plan-Keeps, reject_plan-Keeps, submit_implementation-Keeps, approve_review-Keeps,
  reject_review-Keeps, defer_task-Keeps,
}

abbrev pub HasKey : String → Db → Type 0
HasKey key db = is_some (find (has_key key) db.signals) ≡ true

abbrev pub Anything : Db → Type 0
Anything db = Unit

-- Whatever the state before, the property holds after the action, unless it raised.
pub record Sets {A : Type 0} (P : Session → Type 0) (m : Action A) : Type 0 where
  pub at : (s : Session) (a : A) → (m s).0 ≡ ok a → P (m s).1

pub Sets-bind :
    {A B : Type 0} {P : Session → Type 0} (m : Action A) (f : A → Action B)
    → Sets P m
    → ((a : A) → Keeps P (f a))
    → Sets P (m >>= f)
Sets-bind {A} {B} {P} m f sm kf = record { at = λ s b h. go s (m s).0 refl b h }
  where
    go :
        (s : Session) (r : Result A)
        → (m s).0 ≡ r
        → (b : B) → (◌>>=◌ {A = A} {B = B} (λ (_ : Session). (r, (m s).1)) f s).0 ≡ ok b
        → P (◌>>=◌ {A = A} {B = B} (λ (_ : Session). (r, (m s).1)) f s).1
    go s (ok a) e b h = (kf a).at (m s).1 (sm.at s a e)
    go s (err x) e b h = cc

module _ (ctx : Ctx) (key : String) where
  abbrev pub Recorded : Session → Type 0
  Recorded = Both (HasKey key) Anything

  free : IgnoresTasks (HasKey key)
  free = record {
    at_tasks = λ db x h. h;
    at_assignments = λ db x h. h;
    at_approvals = λ db x h. h;
    at_plans = λ db x h. h;
    at_implementations = λ db x h. h;
    at_contexts = λ db x h. h;
    at_aux_writes = λ db x h. h;
  }

  commits : Keeps Recorded commit
  commits = commit-Keeps (λ db h. tt)

  check_and_record-Sets : (j : ℕ) (name : String) → Sets Recorded (check_and_record ctx key j name)
  unfolding check_and_record find
  check_and_record-Sets j name = record {
    at = λ s a h. record { seen = ground (arith, str_eq_refl key); kept = tt };
  }

  advance_to_in_progress-Keeps :
      (j : ℕ) (corr : Option ℕ) → Keeps Recorded (maybe_advance_to_in_progress ctx j corr)
  unfolding maybe_advance_to_in_progress
  advance_to_in_progress-Keeps j corr = record {
    at = λ s h. record { seen = ground arith; kept = tt };
  }

  advance_to_ready-Keeps :
      (j : ℕ) (corr : Option ℕ) → Keeps Recorded (maybe_advance_to_ready ctx j corr)
  unfolding maybe_advance_to_ready
  advance_to_ready-Keeps j corr = record { at = λ s h. record { seen = ground arith; kept = tt } }

  lock_work_item-Keeps :
      (j : ℕ) (actor : String) (corr : Option ℕ) → Keeps Recorded (lock_work_item ctx j actor corr)
  unfolding lock_work_item
  lock_work_item-Keeps j actor corr = record {
    at = λ s h. record { seen = ground arith; kept = tt };
  }

  unlock_work_item-Keeps :
      (j : ℕ) (actor : String) (corr : Option ℕ)
      → Keeps Recorded (unlock_work_item ctx j actor corr)
  unfolding unlock_work_item
  unlock_work_item-Keeps j actor corr = record {
    at = λ s h. record { seen = ground arith; kept = tt };
  }

  close_work_item-Keeps :
      (j : ℕ) (actor : String) (corr : Option ℕ) → Keeps Recorded (close_work_item ctx j actor corr)
  unfolding close_work_item
  close_work_item-Keeps j actor corr = record {
    at = λ s h. record { seen = ground arith; kept = tt };
  }

  load_work_item-Keeps : (j : ℕ) → Keeps Recorded (load_work_item j)
  unfolding load_work_item
  load_work_item-Keeps j = search keeps_rules

  -- The key is that of the adapter.
  pub approve_task_signal-Sets :
      (j : ℕ) (actor : String)
      → signal_key ctx (approve_task j actor) ≡ key
      → Sets Recorded (approve_task_signal ctx j actor)
  unfolding approve_task_signal signal_key
  approve_task_signal-Sets j actor e = rw e (
      search
        (
          Sets-bind,
          check_and_record-Sets,
          keeps_rules,
          commits,
          with_correlation-Keeps free,
          load_task-Keeps free,
          approve_task-Keeps free,
          enqueue_aux-Keeps free,
          advance_to_in_progress-Keeps,
        )
        depth 30)

  pub reject_task_signal-Sets :
      (j : ℕ) (feedback actor : String)
      → signal_key ctx (reject_task j feedback actor) ≡ key
      → Sets Recorded (reject_task_signal ctx j feedback actor)
  unfolding reject_task_signal signal_key
  reject_task_signal-Sets j feedback actor e = rw e (
      search
        (
          Sets-bind,
          check_and_record-Sets,
          keeps_rules,
          commits,
          with_correlation-Keeps free,
          load_task-Keeps free,
          reject_task_proposal-Keeps free,
        )
        depth 30)

  pub assign_task_signal-Sets :
      (j : ℕ) (kind : AssigneeType) (assignee actor : String)
      → signal_key ctx (assign_task j kind assignee actor) ≡ key
      → Sets Recorded (assign_task_signal ctx j kind assignee actor)
  unfolding assign_task_signal signal_key
  assign_task_signal-Sets j kind assignee actor e = rw e (
      search
        (
          Sets-bind,
          check_and_record-Sets,
          keeps_rules,
          commits,
          with_correlation-Keeps free,
          load_task-Keeps free,
          assign_task-Keeps free,
          enqueue_aux-Keeps free,
        )
        depth 30)

  pub defer_task_signal-Sets :
      (j : ℕ) (reason : Option String) (actor : String)
      → signal_key ctx (defer_task j reason actor) ≡ key
      → Sets Recorded (defer_task_signal ctx j reason actor)
  unfolding defer_task_signal signal_key
  defer_task_signal-Sets j reason actor e = rw e (
      search
        (
          Sets-bind,
          check_and_record-Sets,
          keeps_rules,
          commits,
          with_correlation-Keeps free,
          load_task-Keeps free,
          defer_task-Keeps free,
          advance_to_ready-Keeps,
        )
        depth 30)

  pub submit_plan_signal-Sets :
      (j : ℕ) (path sha actor : String)
      → signal_key ctx (submit_plan j path sha actor) ≡ key
      → Sets Recorded (submit_plan_signal ctx j path sha actor)
  unfolding submit_plan_signal signal_key
  submit_plan_signal-Sets j path sha actor e = rw e (
      search
        (
          Sets-bind,
          check_and_record-Sets,
          keeps_rules,
          commits,
          with_correlation-Keeps free,
          load_task-Keeps free,
          submit_plan-Keeps free,
          enqueue_aux-Keeps free,
          insert_plan-Keeps free,
        )
        depth 30)

  pub approve_plan_signal-Sets :
      (j : ℕ) (actor : String) (role : ActorRole) (solo : Bool)
      → signal_key ctx (approve_plan j actor role solo) ≡ key
      → Sets Recorded (approve_plan_signal ctx j actor role solo)
  unfolding approve_plan_signal signal_key
  approve_plan_signal-Sets j actor role solo e = rw e (
      search
        (
          Sets-bind,
          check_and_record-Sets,
          keeps_rules,
          commits,
          with_correlation-Keeps free,
          load_task-Keeps free,
          approve_plan-Keeps free,
          enqueue_aux-Keeps free,
        )
        depth 30)

  pub reject_plan_signal-Sets :
      (j : ℕ) (feedback actor : String) (role : ActorRole) (solo : Bool)
      → signal_key ctx (reject_plan j feedback actor role solo) ≡ key
      → Sets Recorded (reject_plan_signal ctx j feedback actor role solo)
  unfolding reject_plan_signal signal_key
  reject_plan_signal-Sets j feedback actor role solo e = rw e (
      search
        (
          Sets-bind,
          check_and_record-Sets,
          keeps_rules,
          commits,
          with_correlation-Keeps free,
          load_task-Keeps free,
          reject_plan-Keeps free,
        )
        depth 30)

  pub submit_implementation_signal-Sets :
      (j : ℕ) (url : Option String) (sha summary actor : String)
      → signal_key ctx (submit_implementation j url sha summary actor) ≡ key
      → Sets Recorded (submit_implementation_signal ctx j url sha summary actor)
  unfolding submit_implementation_signal signal_key
  submit_implementation_signal-Sets j url sha summary actor e = rw e (
      search
        (
          Sets-bind,
          check_and_record-Sets,
          keeps_rules,
          commits,
          with_correlation-Keeps free,
          load_task-Keeps free,
          submit_implementation-Keeps free,
          enqueue_aux-Keeps free,
          insert_implementation-Keeps free,
        )
        depth 30)

  pub approve_review_signal-Sets :
      (j : ℕ) (actor : String) (role : ActorRole) (solo : Bool)
      → signal_key ctx (approve_review j actor role solo) ≡ key
      → Sets Recorded (approve_review_signal ctx j actor role solo)
  unfolding approve_review_signal signal_key
  approve_review_signal-Sets j actor role solo e = rw e (
      search
        (
          Sets-bind,
          check_and_record-Sets,
          keeps_rules,
          commits,
          with_correlation-Keeps free,
          load_task-Keeps free,
          approve_review-Keeps free,
          enqueue_aux-Keeps free,
          advance_to_ready-Keeps,
        )
        depth 30)

  pub reject_review_signal-Sets :
      (j : ℕ) (feedback actor : String) (role : ActorRole) (solo : Bool)
      → signal_key ctx (reject_review j feedback actor role solo) ≡ key
      → Sets Recorded (reject_review_signal ctx j feedback actor role solo)
  unfolding reject_review_signal signal_key
  reject_review_signal-Sets j feedback actor role solo e = rw e (
      search
        (
          Sets-bind,
          check_and_record-Sets,
          keeps_rules,
          commits,
          with_correlation-Keeps free,
          load_task-Keeps free,
          reject_review-Keeps free,
        )
        depth 30)

  pub lock_work_item_signal-Sets :
      (j : ℕ) (reason : Option String) (actor : String)
      → signal_key ctx (lock j reason actor) ≡ key
      → Sets Recorded (lock_work_item_signal ctx j reason actor)
  unfolding lock_work_item_signal guarded_work_item_signal signal_key
  lock_work_item_signal-Sets j reason actor e = rw e (
      search
        (
          Sets-bind, check_and_record-Sets, keeps_rules, commits, load_work_item-Keeps,
          lock_work_item-Keeps,
        )
        depth 30)

  pub unlock_work_item_signal-Sets :
      (j : ℕ) (actor : String)
      → signal_key ctx (unlock j actor) ≡ key
      → Sets Recorded (unlock_work_item_signal ctx j actor)
  unfolding unlock_work_item_signal guarded_work_item_signal signal_key
  unlock_work_item_signal-Sets j actor e = rw e (
      search
        (
          Sets-bind, check_and_record-Sets, keeps_rules, commits, load_work_item-Keeps,
          unlock_work_item-Keeps,
        )
        depth 30)

  pub close_work_item_signal-Sets :
      (j : ℕ) (notes : Option String) (actor : String)
      → signal_key ctx (close j notes actor) ≡ key
      → Sets Recorded (close_work_item_signal ctx j notes actor)
  unfolding close_work_item_signal guarded_work_item_signal signal_key
  close_work_item_signal-Sets j notes actor e = rw e (
      search
        (
          Sets-bind, check_and_record-Sets, keeps_rules, commits, load_work_item-Keeps,
          close_work_item-Keeps,
        )
        depth 30)
