-- ===== src/Runtime/Turns.antt =====
-- What comes from outside in one iteration of the loop: the ids and times that it draws, what the
-- executor and the wait for its envelope come to, and what other tasks commit while it waits.
use carestechs_agent_orchest.Prelude.{ℕ, String, Bool, List, Option}
use carestechs_agent_orchest.Json.Value.{Json}
use carestechs_agent_orchest.Dispatch.Machine.{Mark}
use carestechs_agent_orchest.Runtime.State.{DispatchEnvelope}

-- `cancel_run`, a mark on the dispatch at hand by a webhook or the reactor, and a key that an
-- executor writes into the run's memory.
pub data Event : Type 0 where
  cancelled : Json → ℕ → Event
  marked : Mark → Event
  wrote : String → Json → Event

-- `executor.dispatch`: an envelope, an exception by its description, the task is cancelled, or the
-- call never comes back.
pub data Reply : Type 0 where
  returned : DispatchEnvelope → Reply
  threw : String → Reply
  cancelled : Reply
  never : Reply

-- `supervisor.await_dispatch` under `wait_for`: an envelope, the timeout, `DispatchCancelled`, the task
-- is cancelled, or nothing ever comes.
pub data Wait : Type 0 where
  delivered : DispatchEnvelope → Wait
  timed_out : Wait
  dispatch_cancelled : Wait
  cancelled : Wait
  never : Wait

pub record Turn : Type 0 where
  pub before : List Event
  pub cancel_seen : Bool
  pub step_id : ℕ
  pub dispatch_id : ℕ
  pub started_at : ℕ
  pub sent_at : ℕ
  pub during : List Event
  pub reply : Reply
  pub meanwhile : List Event
  pub waited : Option ℕ → Wait
  pub ended_at : ℕ
  pub crash_text : String
