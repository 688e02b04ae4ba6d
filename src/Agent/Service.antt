-- ===== src/Agent/Service.antt =====
-- ron/agent/service.py: one prompt handled by the agent, with confirmations and clarifications.
-- What a regular expression finds, what the planner answers and how things are printed are arguments.
pub mod Dialogue
pub mod Handing
pub mod Confirmation
pub mod Claims
pub mod Tests
use ron_personal_assistant.Prelude.{
  ℕ, ◌+◌, String, Bool, true, false, ◌&&◌, ◌||◌, not, Option, none, some, List, [], ◌∷◌, ◌++◌, ltb,
  leb, if◌then◌else◌, length, map, any, f_string, join, decimal, strip, is_truthy, str_eq, Result,
  ok, err,
}
use ron_personal_assistant.Prelude.Dict.{Dict, nat_key, text_key, get, put, remove}
use ron_personal_assistant.Prelude.Int.{ℤ, pos}
use ron_personal_assistant.Agent.Models.{
  Value, whole, Arguments, AgentPlan, deterministic, no_source, ToolStatus, confirmation_required,
  success, ToolResult, AgentTaskSnapshot, AgentTaskStatus, resolved,
}
use ron_personal_assistant.Agent.Registry.{
  ToolSpec, ToolRegistry, Run, is_ready, preflight, execute,
}
use ron_personal_assistant.Agent.Tasks.{TaskManager, TaskError, submit, close_waiting}

pub record PendingConfirmation : Type 0 where
  pub prompt : String
  pub plans : List AgentPlan
  pub expires_at : ℕ

pub record PendingClarification : Type 0 where
  pub task_id : ℕ
  pub query : String
  pub candidates : List Value
  pub expires_at : ℕ

-- Plans that were handed to the registry or to the task manager, and whether as confirmed.
pub record Handed : Type 0 where
  pub plans : List AgentPlan
  pub confirmed : Bool

pub record AgentService : Type 0 where
  pub pending_confirmation : Option PendingConfirmation
  pub pending_clarification : Option PendingClarification
  pub last_successful_plans : List AgentPlan
  pub submitted_plans : Dict ℕ (List AgentPlan)
  pub tasks : TaskManager
  pub handed : List Handed

pub record AgentResponse : Type 0 where
  pub text : String
  pub plan : AgentPlan
  pub tool_result : Option ToolResult
  pub plans : List AgentPlan
  pub task : Option AgentTaskSnapshot

-- A plan without a tool fails an `assert`.
pub data ServiceError : Type 0 where
  assertion_failed : ServiceError

-- What `_task_control` and `_reminder_control` read in a prompt: a task to cancel, or a question
-- with the text and the reason of its answer.
pub data Control : Type 0 where
  cancels_task : ℕ → Control
  answers : String → String → Control

-- What the service is given, at the time of a prompt.
pub record Surroundings : Type 0 where
  pub registry : ToolRegistry
  pub json_size : String → Arguments → Option ℕ
  pub now : ℕ
  pub run : Run
  -- `CONFIRM_YES` and `CONFIRM_NO`
  pub is_yes : String → Bool
  pub is_no : String → Bool
  pub control : String → Option Control
  -- `REPEAT_PATTERN`, with the percentage
  pub repeats : String → Option (Option ℕ)
  -- `_clarification_choice`
  pub choice : String → PendingClarification → Option ℤ
  -- `plan_steps`: the steps and the reason
  pub plan_steps : String → List AgentPlan × String
  -- `_describe_plan`, and the text of an exception of `submit`
  pub describe_plan : AgentPlan → String
  pub error_text : TaskError → String

-- `_no_plan`
abbrev pub no_plan : String → AgentPlan
no_plan reason = record { tool_name = none; arguments = []; reason = reason; source = no_source }

abbrev pub first_plan : List AgentPlan → AgentPlan
first_plan [] = no_plan ""
first_plan (plan ∷ _) = plan

abbrev pub says : String → String → AgentResponse
says text reason = record {
  text = text;
  plan = no_plan reason;
  tool_result = none;
  plans = [];
  task = none;
}

-- How the preflight of `_execute_plans` ends; `crashed` is a plan without a tool.
pub data Preflighted : Type 0 where
  all_ready crashed : Preflighted
  asks : ToolResult → Preflighted
  stops_at : ℕ → ToolResult → Preflighted

abbrev is_asking : ToolStatus → Bool
is_asking confirmation_required = true
is_asking _ = false

abbrev is_success : ToolStatus → Bool
is_success success = true
is_success _ = false

-- An expiry time that has come.
abbrev pub unless_expired : ℕ → Option PendingConfirmation → Option PendingConfirmation
unless_expired now none = none
unless_expired now (some c) = if leb c.expires_at now then none else some c

abbrev unless_late : ℕ → Option PendingClarification → Option PendingClarification
unless_late now none = none
unless_late now (some c) = if leb c.expires_at now then none else some c

-- `_expire_pending`
unfoldable pub expire_pending : AgentService → ℕ → AgentService
expire_pending s now = record s {
  pending_confirmation = unless_expired now s.pending_confirmation;
  pending_clarification = unless_late now s.pending_clarification;
}

module _ (around : Surroundings) where
  unfoldable pub preflight_plans : Bool → ℕ → List AgentPlan → Preflighted
  preflight_plans confirmed index [] = all_ready
  preflight_plans confirmed index (plan ∷ plans) =
      let rest = preflight_plans confirmed (index + 1) plans in
      elim plan.tool_name [
        | none ↦ crashed
        | some name ↦
            let checked = preflight around.registry name plan.arguments confirmed around.now in
            if is_asking checked.status
            then asks checked
            else if not (is_ready checked.status)
            then stops_at index checked
            else rest
      ]

  abbrev runs_in_background : List AgentPlan → Bool
  runs_in_background [] = false
  runs_in_background (plan ∷ _) = elim plan.tool_name [
    | none ↦ false
    | some name ↦ elim (get around.registry name) [
      | none ↦ false
      | some tool ↦ tool.run_in_background
    ]
  ]

  -- The plans are handed over.
  abbrev hand : AgentService → List AgentPlan → Bool → AgentService
  hand s plans confirmed = record s {
    handed = s.handed ++ record { plans = plans; confirmed = confirmed } ∷ [];
  }

  queued_task :
      AgentService
      → List AgentPlan
      → Result TaskError AgentTaskSnapshot × TaskManager
      → Result ServiceError AgentResponse × AgentService
  queued_task s plans (err e, tasks) = (
    ok (record {
      text = f_string ("I couldn't queue that task safely: " ∷ around.error_text e ∷ []);
      plan = first_plan plans;
      tool_result = none;
      plans = plans;
      task = none;
    }),
    record s { tasks = tasks },
  )
  queued_task s plans (ok snapshot, tasks) = (
    ok (record {
      text = f_string (
          "Task "
          ∷ decimal snapshot.task_id
          ∷ " passed full preflight and is queued with "
          ∷ decimal snapshot.total_steps
          ∷ " step(s). You can keep chatting, check its "
          ∷ "status, or cancel it."
          ∷ []);
      plan = first_plan plans;
      tool_result = none;
      plans = plans;
      task = some snapshot;
    }),
    record s { tasks = tasks; submitted_plans = put s.submitted_plans snapshot.task_id plans },
  )

  run_now :
      AgentService
      → List AgentPlan
      → Bool
      → Option String
      → Result ServiceError AgentResponse × AgentService
  run_now s plans confirmed none = (err assertion_failed, s)
  run_now s plans confirmed (some name) =
      let plan = first_plan plans in
      let (result, _) =
        execute around.json_size around.registry name plan.arguments confirmed around.run in
      (
        ok (record {
          text = result.message;
          plan = plan;
          tool_result = some result;
          plans = plans;
          task = none;
        }),
        (if is_success result.status then record s { last_successful_plans = plans } else s),
      )

  proceed :
      AgentService
      → String
      → List AgentPlan
      → Bool
      → Preflighted
      → Result ServiceError AgentResponse × AgentService
  unfolding queued_task run_now
  proceed s prompt plans confirmed crashed = (err assertion_failed, s)
  proceed s prompt plans confirmed (asks checked) = (
    ok (record {
      text = f_string (
          "This exact plan requires confirmation: "
          ∷ join ", then " (map around.describe_plan plans)
          ∷ ". "
          ∷ "Reply 'confirm' within 90 seconds to run it, or 'cancel'."
          ∷ []);
      plan = first_plan plans;
      tool_result = some checked;
      plans = plans;
      task = none;
    }),
    record s {
      pending_confirmation =
          some (record { prompt = strip prompt; plans = plans; expires_at = around.now + 90 });
    },
  )
  proceed s prompt plans confirmed (stops_at index checked) = (
    ok (record {
      text = f_string (
          "Preflight stopped at step "
          ∷ decimal index
          ∷ ": "
          ∷ checked.message
          ∷ " No step was run."
          ∷ []);
      plan = first_plan plans;
      tool_result = some checked;
      plans = plans;
      task = none;
    }),
    s,
  )
  proceed s prompt plans confirmed all_ready =
      let s = hand s plans confirmed in
      if ltb 1 (length plans) || runs_in_background plans
      then queued_task s plans (submit s.tasks (strip prompt) plans confirmed)
      else run_now s plans confirmed (first_plan plans).tool_name

  -- `_execute_plans`
  unfoldable pub execute_plans :
      AgentService
      → String
      → List AgentPlan
      → Bool
      → Result ServiceError AgentResponse × AgentService
  unfolding proceed
  execute_plans s prompt plans confirmed =
      proceed s prompt plans confirmed (preflight_plans confirmed 1 plans)
