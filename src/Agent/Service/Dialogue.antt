-- ===== src/Agent/Service/Dialogue.antt =====
-- The dialogue of ron/agent/service.py: `respond`, what a pending question makes of a prompt, the
-- repetition of an action, and what is noted when a task ends.
use ron_personal_assistant.Prelude.{
  ℕ, ◌+◌, String, Bool, true, false, ◌&&◌, ◌||◌, not, Option, none, some, List, [], ◌∷◌, leb,
  if◌then◌else◌, f_string, decimal, strip, str_eq, Result, ok, err,
}
use ron_personal_assistant.Prelude.Dict.{Dict, nat_key, text_key, get, put, remove}
use ron_personal_assistant.Prelude.Int.{ℤ, pos}
use ron_personal_assistant.Agent.Models.{
  Value, whole, array, object, Values, nil, cons, AgentPlan, deterministic, AgentTaskSnapshot,
  AgentTaskStatus, queued, running, waiting, resolved, completed, integer_text,
}
use ron_personal_assistant.Agent.Tasks.{cancel, close_waiting}
use ron_personal_assistant.Agent.Service.{
  PendingConfirmation, PendingClarification, AgentService, AgentResponse, ServiceError,
  Surroundings, Control, cancels_task, answers, says, expire_pending, execute_plans,
}

abbrev status_value : AgentTaskStatus → String
status_value queued = "queued"
status_value running = "running"
status_value waiting = "waiting"
status_value resolved = "resolved"
status_value completed = "completed"
status_value AgentTaskStatus.failed = "failed"
status_value AgentTaskStatus.cancelled = "cancelled"
status_value AgentTaskStatus.timed_out = "timed_out"

-- `describe_task`
abbrev describe_task : AgentTaskSnapshot → String
describe_task snapshot = f_string (
    "Task "
    ∷ decimal snapshot.task_id
    ∷ " is "
    ∷ status_value snapshot.status
    ∷ " ("
    ∷ decimal snapshot.completed_steps
    ∷ "/"
    ∷ decimal snapshot.total_steps
    ∷ " steps"
    ∷ "). "
    ∷ snapshot.message
    ∷ [])

abbrev cancel_text : ℕ → Option AgentTaskSnapshot → String
cancel_text task_id none = f_string ("I couldn't find task " ∷ decimal task_id ∷ "." ∷ [])
cancel_text task_id (some snapshot) = describe_task snapshot

-- `_task_control` and `_reminder_control`, once the prompt is read
abbrev pub is_cancelled : AgentTaskStatus → Bool
is_cancelled AgentTaskStatus.cancelled = true
is_cancelled _ = false

-- `_capture_task_result`, for a task that the cancellation has ended: its plans are dropped.
abbrev pub dropped :
    Dict ℕ (List AgentPlan) → ℕ → Option AgentTaskSnapshot → Dict ℕ (List AgentPlan)
dropped plans task_id none = plans
dropped plans task_id (some snapshot) =
    if is_cancelled snapshot.status then remove plans task_id else plans

abbrev pub controlled : AgentService → Control → AgentResponse × AgentService
controlled s (cancels_task task_id) =
    let (snapshot, tasks) = cancel s.tasks task_id in
    (
      says (cancel_text task_id snapshot) "Handled task cancellation.",
      record s { tasks = tasks; submitted_plans = dropped s.submitted_plans task_id snapshot },
    )
controlled s (answers text reason) = (says text reason, s)

abbrev is_set : Option Value → Bool
is_set (some (Value.text action)) = str_eq action "set"
is_set _ = false

abbrev sets_volume : AgentPlan → Bool
sets_volume plan = elim plan.tool_name [
  | none ↦ false
  | some name ↦ str_eq name "control_volume" && is_set (get plan.arguments "action")
]

-- A plan with the level of a volume that is set replaced, and whether it was.
unfoldable pub overridden : ℕ → AgentPlan → AgentPlan × Bool
overridden override plan = (
  record {
    tool_name = plan.tool_name;
    arguments =
        if sets_volume plan
        then put plan.arguments "level" (whole (pos override))
        else plan.arguments;
    reason = "Repeated with a user override.";
    source = plan.source;
  },
  sets_volume plan,
)

unfoldable pub override_plans : ℕ → List AgentPlan → List AgentPlan × Bool
unfolding overridden
override_plans override [] = ([], false)
override_plans override (plan ∷ plans) =
    let (updated, changed) = override_plans override plans in
    let (first, first_changed) = overridden override plan in
    (first ∷ updated, first_changed || changed)

abbrev repeated_with : List AgentPlan → Option ℕ → List AgentPlan
repeated_with previous none = previous
repeated_with previous (some override) =
    if not (leb override 100)
    then []
    else let (updated, changed) = override_plans override previous in
      if changed then updated else []

-- `_repeat_plans`
unfoldable pub repeat_plans : Surroundings → AgentService → String → Option (List AgentPlan)
repeat_plans around s prompt = elim (around.repeats (strip prompt)) [
  | none ↦ none
  | some override ↦ elim s.last_successful_plans [
    | [] ↦ some []
    | plan ∷ plans ↦ some (repeated_with (plan ∷ plans) override)
  ]
]

abbrev Outcome : Type 0
Outcome = Result ServiceError AgentResponse × AgentService

abbrev continued : Option AgentTaskSnapshot → String
continued none = " The selection was processed immediately."
continued (some task) = f_string (" Continued as task " ∷ decimal task.task_id ∷ "." ∷ [])

-- The waiting task is closed once the selection is handed over; not so after a failed `assert`.
unfoldable pub close_resolved :
    ℕ
    → Result ServiceError AgentResponse × AgentService
    → Result ServiceError AgentResponse × AgentService
close_resolved task_id (err e, s) = (err e, s)
close_resolved task_id (ok response, s) = (
  ok response,
  record s {
    tasks =
        (close_waiting s.tasks task_id resolved
          (f_string ("Clarification received." ∷ continued response.task ∷ []))).1;
  },
)

-- `tuple(item for item in candidates if isinstance(item, dict))`
abbrev dicts : Values → List Value
dicts nil = []
dicts (cons (object fields) items) = object fields ∷ dicts items
dicts (cons _ items) = dicts items

abbrev clarification_of :
    ℕ → ℕ → Option Value → Option Value → Option Value → Option PendingClarification
clarification_of task_id now (some (Value.text kind)) (some (Value.text query))
      (some (array candidates)) =
    if str_eq kind "spotify_track"
    then some (record {
      task_id = task_id;
      query = query;
      candidates = dicts candidates;
      expires_at = now + 120;
    })
    else none
clarification_of task_id now _ _ _ = none

abbrev or_keep :
    Option PendingClarification → Option PendingClarification → Option PendingClarification
or_keep none old = old
or_keep (some c) old = some c

abbrev submitted : AgentService → ℕ → List AgentPlan
submitted s task_id = elim (get s.submitted_plans task_id) [ none ↦ [] | some plans ↦ plans ]

abbrev or_last : List AgentPlan → List AgentPlan → List AgentPlan
or_last [] last = last
or_last (plan ∷ plans) last = plan ∷ plans

captured : AgentService → ℕ → AgentTaskSnapshot → AgentTaskStatus → AgentService
captured s now snapshot completed = record s {
  submitted_plans = remove s.submitted_plans snapshot.task_id;
  last_successful_plans = or_last (submitted s snapshot.task_id) s.last_successful_plans;
}
captured s now snapshot waiting = record s {
  submitted_plans = remove s.submitted_plans snapshot.task_id;
  pending_clarification =
      or_keep
        (clarification_of snapshot.task_id now (get snapshot.interaction "kind")
          (get snapshot.interaction "query") (get snapshot.interaction "candidates"))
        s.pending_clarification;
}
captured s now snapshot _ = record s { submitted_plans = remove s.submitted_plans snapshot.task_id }

-- `_capture_task_result`
unfoldable pub capture_task_result : AgentService → ℕ → AgentTaskSnapshot → AgentService
unfolding captured
capture_task_result s now snapshot = captured s now snapshot snapshot.status

-- `claims_interaction`, after `_expire_pending`
abbrev pub claims :
    Surroundings → String → Option PendingConfirmation → Option PendingClarification → Bool
claims around clean (some c) other = around.is_yes clean || around.is_no clean
claims around clean none (some c) =
    (elim (around.choice clean c) [ none ↦ false | some _ ↦ true ]) || around.is_no clean
claims around clean none none = false

unfoldable pub claims_interaction : Surroundings → AgentService → String → Bool
claims_interaction around s prompt =
    let s = expire_pending s around.now in
    claims around (strip prompt) s.pending_confirmation s.pending_clarification

-- The plan of a selection, and the prompt that it is given.
abbrev pub chosen_plan : PendingClarification → ℤ → AgentPlan
chosen_plan c choice = record {
  tool_name = some "spotify_play_track";
  arguments = ("query", Value.text c.query) ∷ ("choice", whole choice) ∷ [];
  reason = "The user selected a clarified Spotify result.";
  source = deterministic;
}

abbrev pub choice_prompt : PendingClarification → ℤ → String
choice_prompt c choice =
    f_string ("Play Spotify choice " ∷ integer_text choice ∷ " for " ∷ c.query ∷ [])

module _ (around : Surroundings) where
  -- `_handle_pending`, with a clarification and its choice
  unfoldable pub selected :
      AgentService → PendingClarification → ℤ → Result ServiceError AgentResponse × AgentService
  unfolding close_resolved
  selected s c choice =
      let s = record s { pending_clarification = none } in
      close_resolved c.task_id
        (execute_plans around s (choice_prompt c choice) (chosen_plan c choice ∷ []) false)

  abbrev pub declined :
      AgentService → PendingClarification → Result ServiceError AgentResponse × AgentService
  declined s c = (
    ok (says "Okay, I cancelled that selection." "The user cancelled a clarification."),
    record s {
      pending_clarification = none;
      tasks =
          (close_waiting s.tasks c.task_id AgentTaskStatus.cancelled
            "The requested Spotify selection was cancelled.").1;
    },
  )

  unfoldable pub clarify :
      AgentService
      → String
      → Option PendingClarification
      → Option (Result ServiceError AgentResponse × AgentService)
  unfolding selected
  clarify s clean none = none
  clarify s clean (some c) =
      if around.is_no clean
      then some (declined s c)
      else elim (around.choice clean c) [ none ↦ none | some choice ↦ some (selected s c choice) ]

  -- `_handle_pending`
  unfoldable pub handle_pending :
      AgentService
      → String
      → Option PendingConfirmation
      → Option (Result ServiceError AgentResponse × AgentService)
  unfolding clarify
  handle_pending s prompt none = clarify s (strip prompt) s.pending_clarification
  handle_pending s prompt (some c) =
      let settled = record s { pending_confirmation = none } in
      if around.is_no (strip prompt)
      then some (
        ok (says "Cancelled. Nothing was changed." "The user declined the pending plan."),
        settled,
      )
      else if around.is_yes (strip prompt)
      then some (execute_plans around settled c.prompt c.plans true)
      else clarify s (strip prompt) s.pending_clarification

  unfoldable pub plan_anew :
      AgentService
      → String
      → List AgentPlan × String
      → Result ServiceError AgentResponse × AgentService
  plan_anew s prompt ([], reason) = (
    ok (
        says
          (f_string (
            "I recognised that as agent work, but I couldn't map every requested "
            ∷ "action to an approved tool. Nothing was changed." ∷ []))
          reason),
    s,
  )
  plan_anew s prompt (plan ∷ plans, reason) = execute_plans around s prompt (plan ∷ plans) false

  unfoldable pub repeat_or_plan :
      AgentService
      → String
      → Option (List AgentPlan)
      → Result ServiceError AgentResponse × AgentService
  unfolding plan_anew
  repeat_or_plan s prompt none = plan_anew s prompt (around.plan_steps prompt)
  repeat_or_plan s prompt (some []) = (
    ok (
        says "I don't have a previous successful action to repeat yet."
          "No successful action is available to repeat."),
    s,
  )
  repeat_or_plan s prompt (some (plan ∷ plans)) = execute_plans around s prompt (plan ∷ plans) false

  unfoldable pub converse : AgentService → String → Result ServiceError AgentResponse × AgentService
  unfolding repeat_or_plan
  converse s prompt = elim (handle_pending s prompt s.pending_confirmation) [
    | some handled ↦ handled
    | none ↦ repeat_or_plan s prompt (repeat_plans around s prompt)
  ]

  -- `respond`
  unfoldable pub respond : AgentService → String → Result ServiceError AgentResponse × AgentService
  unfolding converse
  respond s prompt =
      let s = expire_pending s around.now in
      elim (around.control prompt) [
        | some control ↦ let (response, s') = controlled s control in (ok response, s')
        | none ↦ converse s prompt
      ]
