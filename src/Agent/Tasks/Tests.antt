-- ===== src/Agent/Tasks/Tests.antt =====
-- One task of one step, and the witnesses of the theorems on the tasks.
use ron_personal_assistant.Prelude.{
  List, ◌+◌, ◌≡◌, ◌⊎◌, refl, true, false, none, some, [], ◌∷◌, arith, length, ok, ==_iff,
}
use ron_personal_assistant.Prelude.Dict.{nat_key, get}
use ron_personal_assistant.Agent.Models.{
  AgentTaskStatus, running, completed, AgentPlan, AgentPlanSource, AgentTaskSnapshot, ToolResult,
  ToolStatus,
}
use ron_personal_assistant.Agent.Tasks.{
  TaskRecord, new_record, TaskManager, Journal, snapshot_of, ended, preflighting, is_closed,
  closed_at, mem_nat, trim, surplus, sorted, find, cancel, new_manager, recover,
}
use ron_personal_assistant.Agent.Tasks.Keeping.{IsKeyed}
use ron_personal_assistant.Agent.Tasks.Table.{Stays, MayBeTrimmed, run_keeps_tasks}
use ron_personal_assistant.Agent.Tasks.Cancellation.{runs, IsRequested, cancelled_never_runs}
use ron_personal_assistant.Agent.Tasks.Reports.{HasStatus, IsCancelling, cancel_lem}
use ron_personal_assistant.Agent.Tasks.Race.{cancel_race}
use ron_personal_assistant.Agent.Tasks.Recovery.{IsAtRest, new_manager-IsAtRest}
use ron_personal_assistant.Agent.Tasks.Worker.{Tools, passed, preflight_steps, work}
use ron_personal_assistant.Agent.Tasks.Schedule.{
  Action, submits, cancels, drains, starts, stops, works, run,
}

abbrev set_volume : AgentPlan
set_volume = record {
  tool_name = some "control_volume";
  arguments = [];
  source = AgentPlanSource.deterministic;
  reason = "";
}

abbrev answer : ToolStatus → ToolResult
answer status = record {
  tool_name = "control_volume";
  status = status;
  message = "Volume set.";
  data_fields = [];
  duration_seconds = 0;
}

abbrev tools : Tools
tools = record {
  preflight = λ name plan confirmed now. answer ToolStatus.ready;
  execute = λ name plan confirmed cancelled now. answer ToolStatus.success;
  compensate = λ name result now. none;
}

abbrev task : TaskRecord
task = new_record 1 "louder" (set_volume ∷ []) true

abbrev one_task : TaskRecord → TaskManager
one_task r = record {
  maximum_tasks = 16;
  retained_tasks = 1;
  records = (1, r) ∷ [];
  tracked = 1 ∷ [];
  queue = [];
  notifications = [];
  finished = [];
  progress = [];
  next_id = 2;
  stopping = false;
  place = preflighting 1;
  journal = none;
}

abbrev asked : TaskRecord
asked = record task { cancel_requested = true }

one_task-IsKeyed : IsKeyed (one_task task)
unfolding get
one_task-IsKeyed j r e = ground (arith, ==_iff 1 j)

asked-IsKeyed : IsKeyed (one_task asked)
unfolding get
asked-IsKeyed j r e = ground (arith, ==_iff 1 j)

task_at_1 : get (one_task task).records 1 ≡ some task
unfolding get
task_at_1 = refl

asked-IsRequested : IsRequested (one_task asked) 1
unfolding get
asked-IsRequested = record { task = asked; found = refl; flag = refl }

cancelled_never_runs_example :
    runs 1 (run tools (one_task asked) (works 3 ∷ works 4 ∷ stops ∷ starts ∷ works 5 ∷ [])).place
    ≡ false
cancelled_never_runs_example =
    cancelled_never_runs tools 1 (one_task asked)
      (works 3 ∷ works 4 ∷ stops ∷ starts ∷ works 5 ∷ []) asked-IsKeyed asked-IsRequested refl

task_found : find (one_task task) 1 ≡ some task
unfolding find mem_nat get
task_found = refl

abbrev busy : List Action
busy = works 3 ∷ cancels 1 ∷ works 4 ∷ submits "again" (set_volume ∷ []) true ∷ drains ∷ []

run_keeps_tasks_example :
    Stays 1 task (run tools (one_task task) busy) ⊎ MayBeTrimmed tools (one_task task) busy 1
run_keeps_tasks_example =
    run_keeps_tasks tools (one_task task) busy 1 task one_task-IsKeyed task_found

cancel_lem_example :
    ((is_closed task.status ≡ true)
      × (cancel (one_task task) 1 ≡ (some (snapshot_of task), one_task task)))
    ⊎ ((is_closed task.status ≡ false)
        × (s : AgentTaskSnapshot) × (m' : TaskManager) × (cancel (one_task task) 1 ≡ (some s, m'))
        × IsCancelling (one_task task) 1 task task.status (s, m'))
cancel_lem_example = cancel_lem (one_task task) 1 task one_task-IsKeyed task_found

all_pass : preflight_steps tools 3 true 1 (set_volume ∷ []) ≡ passed
unfolding preflight_steps
all_pass = refl

cancel_race_example :
    let told = (cancel (one_task task) 1).1 in
    let once = work tools 3 told in
    let twice = work tools 4 once in
    HasStatus told 1 AgentTaskStatus.cancelled
    × HasStatus once 1 running
    × HasStatus twice 1 AgentTaskStatus.cancelled
    × (length twice.notifications ≡ length (one_task task).notifications + 2)
cancel_race_example =
    cancel_race tools 3 4 (one_task task) 1 task "control_volume" set_volume [] one_task-IsKeyed
      task_found refl refl refl refl all_pass

-- An open task, older than two closed ones, where one closed task may be kept.
abbrev crowded : TaskManager
crowded = record (one_task task) {
  records =
      (1, task)
      ∷ (2, record task { task_id = 2; status = completed })
      ∷ (3, record task { task_id = 3; status = completed })
      ∷ [];
  tracked = 1 ∷ 2 ∷ 3 ∷ [];
  next_id = 4;
}

crowded_trimmed : (trim crowded).tracked ≡ 1 ∷ 3 ∷ []
unfolding trim surplus closed_at sorted mem_nat get
crowded_trimmed = refl

crowded_has_1 : mem_nat 1 crowded.tracked ≡ true
unfolding mem_nat
crowded_has_1 = refl

crowded_open_1 : closed_at crowded.records 1 ≡ false
unfolding closed_at get
crowded_open_1 = refl

-- A journal with a task that was running.
abbrev left_running : Journal
left_running =
    (
      7,
      record {
        snapshot = snapshot_of (record task { task_id = 7; status = running });
        steps = set_volume ∷ [];
        confirmed = true;
      },
    )
    ∷ []

abbrev reopened : TaskManager
reopened = recover (record {
  maximum_tasks = 16;
  retained_tasks = 1;
  records = [];
  tracked = [];
  queue = [];
  notifications = [];
  finished = [];
  progress = [];
  next_id = 1;
  stopping = false;
  place = ended;
  journal = some left_running;
})

opens : new_manager (some left_running) 16 1 ≡ ok reopened
unfolding new_manager
opens = refl

new_manager-IsAtRest_example : IsAtRest reopened
new_manager-IsAtRest_example = new_manager-IsAtRest (some left_running) 16 1 reopened opens
