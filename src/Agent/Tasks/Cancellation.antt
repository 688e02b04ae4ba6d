-- ===== src/Agent/Tasks/Cancellation.antt =====
-- Cancelling in ron/agent/task_manager.py: once it is requested, no further step of the task runs.
use ron_personal_assistant.Prelude.{
  ℕ, String, ◌≡◌, refl, sym, ap, ◌∙◌, inl, inr, Bool, true, false, Option, none, some, List, [],
  ◌∷◌, arith, ◌==◌, ==_iff, Option-cases,
}
use ron_personal_assistant.Prelude.Dict.{nat_key, get}
use ron_personal_assistant.Agent.Models.{
  AgentTaskStatus, queued, running, waiting, AgentPlan, ToolResult, ToolStatus,
  clarification_required,
}
use ron_personal_assistant.Agent.Tasks.{
  TaskRecord, TaskManager, Place, idle, entered, preflighting, at_step, executing, ended, save,
  notify_progress, write, publish, conclude, start, trim, enqueue, submit_started, submit, cancel,
  cancel_record, close_waiting, close_record, drain_notifications, stop, stop_record, stop_records,
}
use ron_personal_assistant.Agent.Tasks.Fields.{save-IsAside, conclude-IsWrite, publish-IsWrite}
use ron_personal_assistant.Agent.Tasks.Keeping.{IsKeyed}
use ron_personal_assistant.Agent.Tasks.Preservation.{act-Keeps}
use ron_personal_assistant.Agent.Tasks.Worker.{
  Tools, Checked, passed, crashed, refused, enter, begin, complete, start_step, loop_head,
  after_step, run_step, take_next, work_at, work,
}
use ron_personal_assistant.Agent.Tasks.Schedule.{
  Action, submits, cancels, closes, drains, starts, stops, works, act, run,
}

-- A step of this task is running.
abbrev pub runs : ℕ → Place → Bool
runs i (executing j _) = j == i
runs i _ = false

place-conclude : (m : TaskManager) (r : TaskRecord) → (conclude m r).place ≡ m.place
place-conclude m r = (conclude-IsWrite m r).place

place-publish : (m : TaskManager) (r : TaskRecord) → (publish m r).place ≡ m.place
place-publish m r = (publish-IsWrite m r).place

place-save : (m : TaskManager) (r : TaskRecord) → (save m r).place ≡ m.place
place-save m r = (save-IsAside m r).place

ruleset places = (arith, place-conclude, place-publish, place-save)

place-cancel_record :
    (m : TaskManager) (r : TaskRecord) (status : AgentTaskStatus)
    → (cancel_record m r status).1.place ≡ m.place
unfolding cancel_record
place-cancel_record m r queued = place-conclude m _
place-cancel_record m r waiting = place-conclude m _
place-cancel_record m r running = place-publish m _
place-cancel_record m r _ = refl

place-cancel : (m : TaskManager) (i : ℕ) → (cancel m i).1.place ≡ m.place
unfolding cancel
place-cancel m i = grind (arith, place-cancel_record)

place-close_waiting :
    (m : TaskManager) (i : ℕ) (status : AgentTaskStatus) (message : String)
    → (close_waiting m i status message).1.place ≡ m.place
unfolding close_waiting close_record
place-close_waiting m i status message = grind (arith, place-conclude)

place-stop_record : (m : TaskManager) (o : Option TaskRecord) → (stop_record m o).place ≡ m.place
unfolding stop_record write
place-stop_record m none = refl
place-stop_record m (some r) = grind (arith, place-save)

place-stop_records : (m : TaskManager) (ids : List ℕ) → (stop_records m ids).place ≡ m.place
unfolding stop_records
place-stop_records m [] = refl
place-stop_records m (i ∷ ids) =
    place-stop_records (stop_record m (get m.records i)) ids ∙ place-stop_record m (get m.records i)

place-stop : (m : TaskManager) → (stop m).place ≡ m.place
unfolding stop
place-stop m = ground (arith, place-stop_records (record m { stopping = true }) m.tracked)

runs-start : (m : TaskManager) (i : ℕ) → runs i m.place ≡ false → runs i (start m).place ≡ false
unfolding start
runs-start m i h = ground arith

place-submit_started :
    (m : TaskManager) (prompt : String) (steps : List AgentPlan) (confirmed : Bool)
    → (submit_started m prompt steps confirmed).1.place ≡ m.place
unfolding submit_started enqueue notify_progress trim
place-submit_started m prompt steps confirmed = grind (arith, place-save)

runs-submit :
    (m : TaskManager) (prompt : String) (steps : List AgentPlan) (confirmed : Bool) (i : ℕ)
    → runs i m.place ≡ false
    → runs i (submit m prompt steps confirmed).1.place ≡ false
unfolding submit
runs-submit m prompt steps confirmed i h =
    ground (arith, runs-start m i h, place-submit_started (start m) prompt steps confirmed)

-- The cancellation of task `i` is requested.
pub record IsRequested (m : TaskManager) (i : ℕ) : Type 0 where
  pub task : TaskRecord
  pub found : get m.records i ≡ some task
  pub flag : task.cancel_requested ≡ true

module _ (tools : Tools) (now : ℕ) (m : TaskManager) (i : ℕ) where
  runs-after_step :
      (r : TaskRecord) (index : ℕ) (plan : AgentPlan) (result : ToolResult) (status : ToolStatus)
      → runs i (after_step tools now m r index plan result status).place ≡ false
  unfolding after_step
  runs-after_step r index plan result clarification_required = refl
  runs-after_step r index plan result ToolStatus.success = refl
  runs-after_step r index plan result _ = refl

  runs-run_step : (r : TaskRecord) (index : ℕ) → runs i (run_step tools now m r index).place ≡ false
  unfolding run_step
  runs-run_step r index = grind (arith, runs-after_step)

  runs-loop_head :
      (r : TaskRecord) (index : ℕ)
      → ((r.task_id == i) ≡ true → r.cancel_requested ≡ true)
      → runs i (loop_head tools now m r index).place ≡ false
  unfolding loop_head complete start_step
  runs-loop_head r index h = ground arith

  runs-begin : (r : TaskRecord) (c : Checked) → runs i (begin tools now m r c).place ≡ false
  unfolding begin
  runs-begin r crashed = refl
  runs-begin r passed = refl
  runs-begin r (refused _ _) = refl

  runs-take_next :
      (q : List (Option ℕ))
      → runs i m.place ≡ false
      → runs i (take_next tools now m q).place ≡ false
  unfolding take_next
  runs-take_next [] h = h
  runs-take_next (none ∷ rest) h = refl
  runs-take_next (some j ∷ rest) h = refl

  -- If the record at `j` is the task's, its cancellation is requested.
  requested_at :
      IsKeyed m
      → IsRequested m i
      → (j : ℕ) (r : TaskRecord) → get m.records j ≡ some r
      → (r.task_id == i) ≡ true
      → r.cancel_requested ≡ true
  requested_at k q j r e same =
      let own : r.task_id ≡ j = (k j r e).0 in
      let here : j ≡ i = sym own ∙ (==_iff r.task_id i).0 same in
      let one : some r ≡ some q.task = sym e ∙ (ap (get m.records) here ∙ q.found) in
      let r_is_task : r ≡ q.task = cc in
      ap (λ (t : TaskRecord). t.cancel_requested) r_is_task ∙ q.flag

  runs-work_at :
      (p : Place)
      → IsKeyed m
      → IsRequested m i
      → runs i m.place ≡ false
      → runs i (work_at tools now m p).place ≡ false
  unfolding work_at enter
  runs-work_at idle k q h = ground (arith, runs-take_next m.queue h)
  runs-work_at (entered j) k q h = ground arith
  runs-work_at (preflighting j) k q h = grind (arith, runs-begin)
  runs-work_at (at_step j index) k q h = elim (Option-cases (get m.records j)) [
    | inl missing ↦ ground arith
    | inr (r, e) ↦ ground (arith, runs-loop_head r index (requested_at k q j r e))
  ]
  runs-work_at (executing j index) k q h = grind (arith, runs-run_step)
  runs-work_at ended k q h = h

  runs-work :
      IsKeyed m → IsRequested m i → runs i m.place ≡ false → runs i (work tools now m).place ≡ false
  unfolding work
  runs-work = runs-work_at m.place

module _ (tools : Tools) (i : ℕ) where
  runs-act :
      (m : TaskManager) (a : Action)
      → IsKeyed m
      → IsRequested m i
      → runs i m.place ≡ false
      → runs i (act tools m a).place ≡ false
  unfolding act drain_notifications
  runs-act m (submits prompt steps confirmed) k q h = runs-submit m prompt steps confirmed i h
  runs-act m (cancels j) k q h = rw (place-cancel m j) h
  runs-act m (closes j status message) k q h = rw (place-close_waiting m j status message) h
  runs-act m drains k q h = h
  runs-act m starts k q h = runs-start m i h
  runs-act m stops k q h = rw (place-stop m) h
  runs-act m (works now) k q h = runs-work tools now m i k q h

  IsRequested-act :
      (m : TaskManager) (a : Action) → IsKeyed m → IsRequested m i → IsRequested (act tools m a) i
  IsRequested-act m a k q =
      let (task', found', l) = (act-Keeps tools m a).persists k i q.task q.found in
      record { task = task'; found = found'; flag = l.requested q.flag }

  -- Where every record stands under its own id: once the cancellation of a task is requested while
  -- none of its steps is running, no step of it ever runs again, whatever the clients, the worker and
  -- the tools do, in any order.
  pub cancelled_never_runs :
      (m : TaskManager) (actions : List Action)
      → IsKeyed m
      → IsRequested m i
      → runs i m.place ≡ false
      → runs i (run tools m actions).place ≡ false
  unfolding run
  cancelled_never_runs m [] k q h = h
  cancelled_never_runs m (a ∷ rest) k q h =
      cancelled_never_runs (act tools m a) rest ((act-Keeps tools m a).keyed k)
        (IsRequested-act m a k q) (runs-act m a k q h)
