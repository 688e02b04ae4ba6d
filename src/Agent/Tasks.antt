-- ===== src/Agent/Tasks.antt =====
-- ron/agent/task_manager.py: the tasks, the queue of the single worker, and what a client may call.
-- A record object is shared by `_tasks` and the queue: `records` is the store of the objects, by
-- task id, and `tracked` lists the ids that `_tasks` holds. A call under a record's lock is one step.
mod Records
pub mod Worker
pub mod Schedule
pub mod Fields
pub mod Keeping
pub mod Working
pub mod Preservation
pub mod Cancellation
pub mod Reports
pub mod Race
pub mod Retention
pub mod Table
pub mod Recovery
mod Tests
unfoldable pub use Records.*
use ron_personal_assistant.Prelude.{
  ℕ, ◌+◌, ◌-◌, String, Bool, true, false, ◌&&◌, ◌||◌, not, Option, none, some, List, [], ◌∷◌, ◌++◌,
  ltb, leb, ◌==◌, if◌then◌else◌, length, take, keep, map, Result, ok, err,
}
use ron_personal_assistant.Prelude.Dict.{Dict, nat_key, get, put}
use ron_personal_assistant.Agent.Models.{
  AgentTaskStatus, queued, running, waiting, resolved, AgentPlan, AgentTaskSnapshot,
}

-- Where the worker thread stands between two steps that a lock makes atomic.
pub data Place : Type 0 where
  idle : Place
  -- the record is taken, and the entry test of `_execute` not yet made
  entered : ℕ → Place
  -- past the entry test, before the end of the preflight
  preflighting : ℕ → Place
  -- at the head of the loop over the steps, before the step of this index (from 0)
  at_step : ℕ → ℕ → Place
  -- the tool of this step is running
  executing : ℕ → ℕ → Place
  -- `_run` has returned
  ended : Place

pub record TaskManager : Type 0 where
  pub maximum_tasks : ℕ
  pub retained_tasks : ℕ
  pub records : Dict ℕ TaskRecord
  pub tracked : List ℕ
  pub queue : List (Option ℕ)
  pub notifications : List AgentTaskSnapshot
  -- what the two kinds of listeners have been called with
  pub finished : List AgentTaskSnapshot
  pub progress : List AgentTaskSnapshot
  pub next_id : ℕ
  pub stopping : Bool
  pub place : Place
  pub journal : Option Journal

pub data TaskError : Type 0 where
  invalid_limits invalid_step_count queue_full invalid_close : TaskError

-- `_save`
unfoldable pub save : TaskManager → TaskRecord → TaskManager
save m r = elim m.journal [
  | none ↦ m
  | some rows ↦ record m {
    journal = some (
        save_entry rows
          (record { snapshot = snapshot_of r; steps = r.steps; confirmed = r.confirmed }));
  }
]

-- `_notify_progress`
unfoldable pub notify_progress : TaskManager → TaskRecord → TaskManager
notify_progress m r = record m { progress = m.progress ++ snapshot_of r ∷ [] }

-- the assignment of a record's fields
unfoldable pub write : TaskManager → TaskRecord → TaskManager
write m r = record m { records = put m.records r.task_id r }

-- `_finish`
unfoldable pub finish : TaskManager → TaskRecord → TaskManager
finish m r =
    let saved = save m r in
    let noted = record saved { notifications = saved.notifications ++ snapshot_of r ∷ [] } in
    let shown = notify_progress noted r in
    record shown { finished = shown.finished ++ snapshot_of r ∷ [] }

-- Assign, save and tell the progress listeners.
unfoldable pub publish : TaskManager → TaskRecord → TaskManager
publish m r = notify_progress (save (write m r) r) r

-- Assign and finish.
unfoldable pub conclude : TaskManager → TaskRecord → TaskManager
conclude m r = finish (write m r) r

-- `start`: a worker that has returned, or never ran, is started.
unfoldable pub start : TaskManager → TaskManager
start m = elim m.place [ ended ↦ record m { stopping = false; place = idle } | _ ↦ m ]

insert_sorted : ℕ → List ℕ → List ℕ
insert_sorted n [] = n ∷ []
insert_sorted n (k ∷ ks) = if leb n k then n ∷ k ∷ ks else k ∷ insert_sorted n ks

unfoldable pub sorted : List ℕ → List ℕ
unfolding insert_sorted
sorted [] = []
sorted (n ∷ ns) = insert_sorted n (sorted ns)

unfoldable pub closed_at : Dict ℕ TaskRecord → ℕ → Bool
closed_at records task_id = elim (get records task_id) [
  | none ↦ false
  | some r ↦ is_closed r.status
]

unfoldable pub mem_nat : ℕ → List ℕ → Bool
mem_nat n [] = false
mem_nat n (k ∷ ks) = n == k || mem_nat n ks

-- the ids that `_trim_locked` pops: `completed_ids[:-self.retained_tasks]`
unfoldable pub surplus : TaskManager → List ℕ
surplus m =
    let completed_ids = keep (closed_at m.records) (sorted m.tracked) in
    take (length completed_ids - m.retained_tasks) completed_ids

-- `_trim_locked`
unfoldable pub trim : TaskManager → TaskManager
trim m = record m { tracked = keep (λ i. not (mem_nat i (surplus m))) m.tracked }

-- The new record, under the manager's lock.
unfoldable pub enqueue :
    TaskManager → String → List AgentPlan → Bool → AgentTaskSnapshot × TaskManager
enqueue m prompt steps confirmed =
    let r = new_record m.next_id prompt steps confirmed in
    let added = record m {
      next_id = m.next_id + 1;
      records = put m.records m.next_id r;
      tracked = m.tracked ++ m.next_id ∷ [];
    } in
    let saved = save (trim added) r in
    let put_in = record saved { queue = saved.queue ++ some m.next_id ∷ [] } in
    (snapshot_of r, notify_progress put_in r)

submit_started :
    TaskManager → String → List AgentPlan → Bool → Result TaskError AgentTaskSnapshot × TaskManager
submit_started m prompt steps confirmed =
    if leb m.maximum_tasks (length m.queue)
    then (err queue_full, m)
    else let (s, m') = enqueue m prompt steps confirmed in (ok s, m')

-- `submit`; `start` is called before the queue is looked at, so it shows also when that is full
unfoldable pub submit :
    TaskManager → String → List AgentPlan → Bool → Result TaskError AgentTaskSnapshot × TaskManager
unfolding submit_started
submit m prompt steps confirmed =
    if not (leb 1 (length steps) && leb (length steps) 4)
    then (err invalid_step_count, m)
    else submit_started (start m) prompt steps confirmed

-- `self._tasks.get(task_id)`
unfoldable pub find : TaskManager → ℕ → Option TaskRecord
find m task_id = if mem_nat task_id m.tracked then get m.records task_id else none

-- `snapshot`
unfoldable pub snapshot : TaskManager → ℕ → Option AgentTaskSnapshot
snapshot m task_id = elim (find m task_id) [ none ↦ none | some r ↦ some (snapshot_of r) ]

pub cancel_record : TaskManager → TaskRecord → AgentTaskStatus → AgentTaskSnapshot × TaskManager
cancel_record m r queued =
    let r = record r {
      cancel_requested = true;
      status = AgentTaskStatus.cancelled;
      message = "Cancelled before the first step ran.";
      current_tool = none;
    } in
    (snapshot_of r, conclude m r)
cancel_record m r waiting =
    let r = record r {
      cancel_requested = true;
      status = AgentTaskStatus.cancelled;
      message = "Cancelled while waiting for your choice.";
      current_tool = none;
    } in
    (snapshot_of r, conclude m r)
cancel_record m r running =
    let r = record r {
      cancel_requested = true;
      message = "Cancellation requested; the current tool will stop at its next safe checkpoint.";
    } in
    (snapshot_of r, publish m r)
cancel_record m r _ = (snapshot_of r, m)

-- `cancel`
unfoldable pub cancel : TaskManager → ℕ → Option AgentTaskSnapshot × TaskManager
unfolding cancel_record
cancel m task_id = elim (find m task_id) [
  | none ↦ (none, m)
  | some r ↦ let (s, m') = cancel_record m r r.status in (some s, m')
]

abbrev is_close_status : AgentTaskStatus → Bool
is_close_status resolved = true
is_close_status AgentTaskStatus.cancelled = true
is_close_status _ = false

abbrev is_waiting : AgentTaskStatus → Bool
is_waiting waiting = true
is_waiting _ = false

close_record : TaskManager → AgentTaskStatus → String → TaskRecord → AgentTaskSnapshot × TaskManager
close_record m status message r =
    if not (is_waiting r.status)
    then (snapshot_of r, m)
    else let r = record r {
      status = status;
      message = message;
      current_tool = none;
      interaction = [];
    } in
      (snapshot_of r, conclude m r)

-- `close_waiting`
unfoldable pub close_waiting :
    TaskManager
    → ℕ
    → AgentTaskStatus
    → String
    → Result TaskError (Option AgentTaskSnapshot) × TaskManager
unfolding close_record
close_waiting m task_id status message =
    if not (is_close_status status) then (err invalid_close, m) else elim (find m task_id) [
      | none ↦ (ok none, m)
      | some r ↦ let (s, m') = close_record m status message r in (ok (some s), m')
    ]

-- `drain_notifications`
unfoldable pub drain_notifications : TaskManager → List AgentTaskSnapshot × TaskManager
drain_notifications m = (m.notifications, record m { notifications = [] })

abbrev is_unfinished : AgentTaskStatus → Bool
is_unfinished queued = true
is_unfinished running = true
is_unfinished _ = false

stop_record : TaskManager → Option TaskRecord → TaskManager
stop_record m none = m
stop_record m (some r) =
    if not (is_unfinished r.status)
    then m
    else let r = record r {
      cancel_requested = true;
      message = "Ron shut down; this task will not resume automatically.";
    } in
      save (write m r) r

stop_records : TaskManager → List ℕ → TaskManager
stop_records m [] = m
stop_records m (i ∷ ids) = stop_records (stop_record m (get m.records i)) ids

-- `stop`, up to the wait for the worker
unfoldable pub stop : TaskManager → TaskManager
unfolding stop_records stop_record
stop m =
    let m = stop_records (record m { stopping = true }) m.tracked in
    if leb m.maximum_tasks (length m.queue) then m else record m { queue = m.queue ++ none ∷ [] }

-- The tables with a record of the journal.
abbrev known : TaskManager → TaskRecord → TaskManager
known m r = record m {
  records = put m.records r.task_id r;
  tracked = if mem_nat r.task_id m.tracked then m.tracked else m.tracked ++ r.task_id ∷ [];
  next_id = if ltb m.next_id (r.task_id + 1) then r.task_id + 1 else m.next_id;
}

abbrev given_up : TaskRecord → TaskRecord
given_up r = record r {
  status = AgentTaskStatus.failed;
  current_tool = none;
  cancel_requested = false;
  recovered = true;
  message =
      "Ron restarted before this task finished. It was not resumed automatically; ask me to run it again if you still want it.";
}

recover_record : TaskManager → TaskRecord → TaskManager
recover_record m r =
    if not (is_unfinished r.status)
    then known m r
    else save (write (known m r) (given_up r)) (given_up r)

recover_entries : TaskManager → List JournalEntry → TaskManager
recover_entries m [] = m
recover_entries m (entry ∷ entries) =
    recover_entries (recover_record m (record_from_entry entry)) entries

-- `_recover`
unfoldable pub recover : TaskManager → TaskManager
unfolding recover_entries recover_record
recover m = elim m.journal [
  | none ↦ m
  | some rows ↦ recover_entries m (load_recent rows m.retained_tasks)
]

-- `__init__`
unfoldable pub new_manager : Option Journal → ℕ → ℕ → Result TaskError TaskManager
new_manager journal maximum_tasks retained_tasks =
    if not (leb 1 maximum_tasks && leb maximum_tasks 100)
      || not (leb 1 retained_tasks && leb retained_tasks maximum_tasks)
    then err invalid_limits
    else ok (
        recover (record {
          maximum_tasks = maximum_tasks;
          retained_tasks = retained_tasks;
          records = [];
          tracked = [];
          queue = [];
          notifications = [];
          finished = [];
          progress = [];
          next_id = 1;
          stopping = false;
          place = ended;
          journal = journal;
        }))
