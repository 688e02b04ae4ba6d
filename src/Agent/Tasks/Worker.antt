-- ===== src/Agent/Tasks/Worker.antt =====
-- The worker of ron/agent/task_manager.py: `_run` and `_execute`, cut where another thread's call
-- can come between. The tools are an argument; what they answer depends on the time of the call.
use ron_personal_assistant.Prelude.{
  ℕ, ◌+◌, String, Bool, true, false, ◌||◌, not, Option, none, some, List, [], ◌∷◌, ◌++◌,
  if◌then◌else◌, length, get_elem?, reverse, f_string, join, decimal, is_truthy,
}
use ron_personal_assistant.Prelude.Dict.{nat_key, get}
use ron_personal_assistant.Agent.Models.{
  AgentTaskStatus, running, waiting, completed, AgentPlan, ToolStatus, clarification_required,
  ToolResult,
}
use ron_personal_assistant.Agent.Registry.{is_ready}
use ron_personal_assistant.Agent.Tasks.{
  TaskRecord, TaskManager, Place, idle, entered, preflighting, at_step, executing, ended, publish,
  conclude,
}

-- What the worker calls of the registry.
pub record Tools : Type 0 where
  pub preflight : String → AgentPlan → Bool → ℕ → ToolResult
  pub execute : String → AgentPlan → Bool → Bool → ℕ → ToolResult
  pub compensate : String → ToolResult → ℕ → Option ToolResult

-- How the preflight of all steps ends; `crashed` is the failed `assert` of a plan without a tool.
pub data Checked : Type 0 where
  passed crashed : Checked
  refused : ℕ → String → Checked

abbrev pub move : TaskManager → Place → TaskManager
move m place = record m { place = place }

module _ (tools : Tools) (now : ℕ) where
  unfoldable pub preflight_steps : Bool → ℕ → List AgentPlan → Checked
  preflight_steps confirmed index [] = passed
  preflight_steps confirmed index (plan ∷ plans) =
      let rest = preflight_steps confirmed (index + 1) plans in
      elim plan.tool_name [
        | none ↦ crashed
        | some name ↦
            let preflight = tools.preflight name plan confirmed now in
            if not (is_ready preflight.status) then refused index preflight.message else rest
      ]

  abbrev is_success : ToolStatus → Bool
  is_success ToolStatus.success = true
  is_success _ = false

  abbrev add_rollback : Option ToolResult → List String × List String → List String × List String
  add_rollback none done = done
  add_rollback (some compensation) (rolled_back, rollback_failed) =
      if is_success compensation.status
      then (rolled_back ++ compensation.message ∷ [], rollback_failed)
      else (rolled_back, rollback_failed ++ compensation.message ∷ [])

  abbrev compensation_of : AgentPlan × ToolResult → Option ToolResult
  compensation_of (plan, result) = elim plan.tool_name [
    | none ↦ none
    | some name ↦ tools.compensate name result now
  ]

  unfoldable pub compensate_from :
      List (AgentPlan × ToolResult) → List String × List String → List String × List String
  compensate_from [] done = done
  compensate_from (entry ∷ entries) done =
      compensate_from entries (add_rollback (compensation_of entry) done)

  -- `_compensate_completed`
  unfoldable pub compensate_completed : TaskRecord → List String × List String
  unfolding compensate_from
  compensate_completed r = compensate_from (reverse r.completed_results) ([], [])

  abbrev pub when_any : List String → String → List String
  when_any [] label = []
  when_any (m ∷ messages) label = f_string (label ∷ join " " (m ∷ messages) ∷ []) ∷ []

  -- `_interrupt_and_compensate`
  unfoldable pub interrupt : TaskManager → TaskRecord → AgentTaskStatus → String → TaskManager
  interrupt m r status message =
      let (rolled_back, rollback_failed) = compensate_completed r in
      let details =
        message
        ∷ (when_any r.completed_messages "Completed before interruption: "
            ++ when_any rolled_back "Safely rolled back: "
            ++ when_any rollback_failed "Rollback warning: ") in
      conclude m (record r { status = status; current_tool = none; message = join " " details })

  -- `_fail_and_compensate`
  unfoldable pub fail : TaskManager → TaskRecord → ℕ → ToolResult → TaskManager
  fail m r failed_step failure =
      let (rolled_back, rollback_failed) = compensate_completed r in
      let done = join " " r.completed_messages in
      let details =
        f_string
          ("Step " ∷ decimal failed_step ∷ " failed, so the remaining steps were skipped." ∷ [])
        ∷ failure.message
        ∷ ((if is_truthy done
              then f_string ("Completed before the failure: " ∷ done ∷ []) ∷ []
              else [])
            ++ when_any rolled_back "Safely rolled back: "
            ++ when_any rollback_failed "Rollback warning: ") in
      conclude m (record r {
        status = AgentTaskStatus.failed;
        current_tool = none;
        message = join " " details;
      })

  abbrev pub is_cancelled : AgentTaskStatus → Bool
  is_cancelled AgentTaskStatus.cancelled = true
  is_cancelled _ = false

  -- The entry test of `_execute`.
  unfoldable pub enter : TaskManager → TaskRecord → TaskManager
  enter m r =
      if is_cancelled r.status || r.cancel_requested
      then move m idle
      else move m (preflighting r.task_id)

  -- The end of the preflight: a failure, or the status RUNNING.
  unfoldable pub begin : TaskManager → TaskRecord → Checked → TaskManager
  begin m r crashed = move m ended
  begin m r (refused index message) =
      move
        (conclude m (record r {
          status = AgentTaskStatus.failed;
          current_tool = none;
          message = f_string (
              "Final preflight failed at step "
              ∷ decimal index
              ∷ "; no task step ran. "
              ∷ message
              ∷ []);
        }))
        idle
  begin m r passed =
      move
        (publish m (record r {
          status = running;
          message = f_string ("Starting " ∷ decimal (length r.steps) ∷ " validated steps." ∷ []);
        }))
        (at_step r.task_id 0)

  -- After the last step.
  unfoldable pub complete : TaskManager → TaskRecord → TaskManager
  complete m r =
      move
        (conclude m (record r {
          status = completed;
          current_tool = none;
          message = join " " r.completed_messages;
        }))
        idle

  -- The head of the loop, at a step with this tool.
  unfoldable pub start_step : TaskManager → TaskRecord → ℕ → Option String → TaskManager
  start_step m r index none = move m ended
  start_step m r index (some name) =
      if r.cancel_requested || m.stopping
      then move
          (interrupt m r AgentTaskStatus.cancelled (
            f_string (
              "Cancelled safely after "
              ∷ decimal r.completed_steps
              ∷ " of "
              ∷ decimal (length r.steps)
              ∷ " steps."
              ∷ [])))
          idle
      else move
          (publish m (record r {
            current_tool = some name;
            message = f_string (
                "Running step "
                ∷ decimal (index + 1)
                ∷ " of "
                ∷ decimal (length r.steps)
                ∷ ": "
                ∷ name
                ∷ "."
                ∷ []);
          }))
          (executing r.task_id index)

  unfoldable pub loop_head : TaskManager → TaskRecord → ℕ → TaskManager
  loop_head m r index = elim (get_elem? r.steps index) [
    | none ↦ complete m r
    | some plan ↦ start_step m r index plan.tool_name
  ]

  -- What `_execute` makes of a tool's result.
  unfoldable pub after_step :
      TaskManager → TaskRecord → ℕ → AgentPlan → ToolResult → ToolStatus → TaskManager
  after_step m r index plan result clarification_required =
      move
        (conclude m (record r {
          status = waiting;
          current_tool = none;
          message = result.message;
          interaction = result.data_fields;
        }))
        idle
  after_step m r index plan result ToolStatus.cancelled =
      move (interrupt m r AgentTaskStatus.cancelled result.message) idle
  after_step m r index plan result ToolStatus.timed_out =
      move (interrupt m r AgentTaskStatus.timed_out result.message) idle
  after_step m r index plan result ToolStatus.success =
      move
        (publish m (record r {
          completed_results = r.completed_results ++ (plan, result) ∷ [];
          completed_messages = r.completed_messages ++ result.message ∷ [];
          completed_steps = index + 1;
          message = f_string (
              "Completed step "
              ∷ decimal (index + 1)
              ∷ " of "
              ∷ decimal (length r.steps)
              ∷ ". "
              ∷ result.message
              ∷ []);
        }))
        (at_step r.task_id (index + 1))
  after_step m r index plan result _ = move (fail m r (index + 1) result) idle

  unfoldable pub run_step : TaskManager → TaskRecord → ℕ → TaskManager
  run_step m r index = elim (get_elem? r.steps index) [
    | none ↦ move m ended
    | some plan ↦ elim plan.tool_name [
      | none ↦ move m ended
      | some name ↦
          let result = tools.execute name plan r.confirmed r.cancel_requested now in
          after_step m r index plan result result.status
    ]
  ]

  -- `_run`, at the head of its loop: the stop flag, then the queue.
  unfoldable pub take_next : TaskManager → List (Option ℕ) → TaskManager
  take_next m [] = m
  take_next m (none ∷ rest) = record m { queue = rest; place = ended }
  take_next m (some task_id ∷ rest) = record m { queue = rest; place = entered task_id }

  abbrev pub on_record : TaskManager → ℕ → (TaskRecord → TaskManager) → TaskManager
  on_record m task_id f = elim (get m.records task_id) [ none ↦ m | some r ↦ f r ]

  unfoldable pub work_at : TaskManager → Place → TaskManager
  work_at m idle = if m.stopping then move m ended else take_next m m.queue
  work_at m (entered i) = on_record m i (enter m)
  work_at m (preflighting i) = on_record m i λ r. begin m r (preflight_steps r.confirmed 1 r.steps)
  work_at m (at_step i index) = on_record m i λ r. loop_head m r index
  work_at m (executing i index) = on_record m i λ r. run_step m r index
  work_at m ended = m

  -- One step of the worker.
  unfoldable pub work : TaskManager → TaskManager
  unfolding work_at take_next enter begin loop_head complete start_step run_step after_step
  work m = work_at m m.place
