-- ===== src/Agent/Tasks/Schedule.antt =====
-- The threads of ron/agent/task_manager.py as one sequence of atomic steps.
use ron_personal_assistant.Prelude.{ℕ, String, Bool, List, [], ◌∷◌}
use ron_personal_assistant.Agent.Models.{AgentTaskStatus, AgentPlan}
use ron_personal_assistant.Agent.Tasks.{
  TaskManager, submit, cancel, close_waiting, drain_notifications, start, stop,
}
use ron_personal_assistant.Agent.Tasks.Worker.{Tools, work}

-- A call of a client, or a step of the worker at a time.
pub data Action : Type 0 where
  submits : String → List AgentPlan → Bool → Action
  cancels : ℕ → Action
  closes : ℕ → AgentTaskStatus → String → Action
  drains starts stops : Action
  works : ℕ → Action

module _ (tools : Tools) where
  unfoldable pub act : TaskManager → Action → TaskManager
  act m (submits prompt steps confirmed) = (submit m prompt steps confirmed).1
  act m (cancels task_id) = (cancel m task_id).1
  act m (closes task_id status message) = (close_waiting m task_id status message).1
  act m drains = (drain_notifications m).1
  act m starts = start m
  act m stops = stop m
  act m (works now) = work tools now m

  unfoldable pub run : TaskManager → List Action → TaskManager
  run m [] = m
  run m (a ∷ rest) = run (act m a) rest
