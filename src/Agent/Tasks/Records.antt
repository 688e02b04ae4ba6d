-- ===== src/Agent/Tasks/Records.antt =====
-- `_TaskRecord`, its snapshot and the journal: ron/agent/task_manager.py and ron/agent/journal.py.
use ron_personal_assistant.Prelude.{
  ℕ, ◌-◌, String, Bool, true, false, Option, none, List, [], ◌∷◌, ltb, ◌==◌, if◌then◌else◌, length,
  drop, map,
}
use ron_personal_assistant.Prelude.Dict.{nat_key}
use ron_personal_assistant.Agent.Models.{
  AgentTaskStatus, AgentPlan, AgentTaskSnapshot, Arguments, ToolResult, queued,
}

pub record TaskRecord : Type 0 where
  pub task_id : ℕ
  pub prompt : String
  pub steps : List AgentPlan
  pub confirmed : Bool
  pub status : AgentTaskStatus
  pub completed_steps : ℕ
  pub current_tool : Option String
  pub message : String
  pub cancel_requested : Bool
  pub completed_messages : List String
  pub completed_results : List (AgentPlan × ToolResult)
  pub recovered : Bool
  pub interaction : Arguments

-- `_TaskRecord(task_id=…, prompt=…, steps=…, confirmed=…)` with the defaults of the other fields
abbrev pub new_record : ℕ → String → List AgentPlan → Bool → TaskRecord
new_record task_id prompt steps confirmed = record {
  task_id = task_id;
  prompt = prompt;
  steps = steps;
  confirmed = confirmed;
  status = queued;
  completed_steps = 0;
  current_tool = none;
  message = "Waiting to start.";
  cancel_requested = false;
  completed_messages = [];
  completed_results = [];
  recovered = false;
  interaction = [];
}

-- `_TaskRecord.snapshot`
unfoldable pub snapshot_of : TaskRecord → AgentTaskSnapshot
snapshot_of r = record {
  task_id = r.task_id;
  prompt = r.prompt;
  status = r.status;
  total_steps = length r.steps;
  completed_steps = r.completed_steps;
  current_tool = r.current_tool;
  message = r.message;
  cancel_requested = r.cancel_requested;
  completed_messages = r.completed_messages;
  recovered = r.recovered;
  interaction = r.interaction;
}

-- `CLOSED_TASK_STATES`
abbrev pub is_closed : AgentTaskStatus → Bool
is_closed AgentTaskStatus.completed = true
is_closed AgentTaskStatus.failed = true
is_closed AgentTaskStatus.cancelled = true
is_closed AgentTaskStatus.resolved = true
is_closed AgentTaskStatus.timed_out = true
is_closed _ = false

pub record JournalEntry : Type 0 where
  pub snapshot : AgentTaskSnapshot
  pub steps : List AgentPlan
  pub confirmed : Bool

-- The table `agent_tasks`: a row for each task id, in the order of the ids.
abbrev pub Journal : Type 0
Journal = List (ℕ × JournalEntry)

-- `AgentTaskJournal.save`: INSERT, or UPDATE on a conflict of ids
unfoldable pub save_entry : Journal → JournalEntry → Journal
save_entry [] entry = (entry.snapshot.task_id, entry) ∷ []
save_entry ((j, old) ∷ rows) entry =
    let rest = save_entry rows entry in
    if entry.snapshot.task_id == j
    then (j, entry) ∷ rows
    else if ltb entry.snapshot.task_id j
    then (entry.snapshot.task_id, entry) ∷ (j, old) ∷ rows
    else (j, old) ∷ rest

-- `load_recent`: the last rows by id, in ascending order
unfoldable pub load_recent : Journal → ℕ → List JournalEntry
load_recent rows limit = map (λ row. row.1) (drop (length rows - limit) rows)

-- `_record_from_entry`
unfoldable pub record_from_entry : JournalEntry → TaskRecord
record_from_entry entry = record {
  task_id = snapshot.task_id;
  prompt = snapshot.prompt;
  steps = entry.steps;
  confirmed = entry.confirmed;
  status = snapshot.status;
  completed_steps = snapshot.completed_steps;
  current_tool = snapshot.current_tool;
  message = snapshot.message;
  cancel_requested = snapshot.cancel_requested;
  completed_messages = snapshot.completed_messages;
  completed_results = [];
  recovered = snapshot.recovered;
  interaction = snapshot.interaction;
}
  where
    open entry use {snapshot}
