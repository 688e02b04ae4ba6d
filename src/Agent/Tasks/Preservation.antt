-- ===== src/Agent/Tasks/Preservation.antt =====
-- Each client call of ron/agent/task_manager.py keeps the records, and all but a submission the table.
use ron_personal_assistant.Prelude.{
  ℕ, ◌+◌, String, ◌≡◌, refl, ap, ◌∙◌, Bool, true, false, ◌&&◌, not, Option, none, some, List, [],
  ◌∷◌, ◌++◌, arith, ◌==◌, if◌then◌else◌, leb, length,
}
use ron_personal_assistant.Prelude.Dict.{nat_key, get, put, get-put}
use ron_personal_assistant.Agent.Models.{AgentTaskStatus, queued, running, waiting, AgentPlan}
use ron_personal_assistant.Agent.Tasks.{
  TaskRecord, TaskManager, new_record, notify_progress, start, trim, enqueue, submit_started,
  submit, find, cancel, cancel_record, close_record, close_waiting, drain_notifications, stop,
  stop_record, stop_records,
}
use ron_personal_assistant.Agent.Tasks.Fields.{save-IsAside, saved-IsWrite}
use ron_personal_assistant.Agent.Tasks.Keeping.{
  IsLater-refl, KeepsRecords, KeepsRecords-trans, Keeps, Keeps-trans, Keeps-same, Keeps-write,
}
use ron_personal_assistant.Agent.Tasks.Worker.{Tools}
use ron_personal_assistant.Agent.Tasks.Schedule.{
  Action, submits, cancels, closes, drains, starts, stops, works, act,
}
use ron_personal_assistant.Agent.Tasks.Working.{
  Keeps-branch, Keeps-found, Keeps-if, Keeps-refl, conclude-Keeps, publish-Keeps, work-Keeps,
}

module _ (m : TaskManager) (i : ℕ) (r : TaskRecord) (at_i : get m.records i ≡ some r) where
  cancel_record-Keeps : (status : AgentTaskStatus) → Keeps m (cancel_record m r status).1
  unfolding cancel_record
  cancel_record-Keeps queued = conclude-Keeps m i r at_i _ (record {
    task_id = refl;
    prompt = refl;
    steps = refl;
    confirmed = refl;
    requested = λ h. refl;
  })
  cancel_record-Keeps waiting = conclude-Keeps m i r at_i _ (record {
    task_id = refl;
    prompt = refl;
    steps = refl;
    confirmed = refl;
    requested = λ h. refl;
  })
  cancel_record-Keeps running = publish-Keeps m i r at_i _ (record {
    task_id = refl;
    prompt = refl;
    steps = refl;
    confirmed = refl;
    requested = λ h. refl;
  })
  cancel_record-Keeps _ = Keeps-refl m

  close_record-Keeps :
      (status : AgentTaskStatus) (message : String) → Keeps m (close_record m status message r).1
  unfolding close_record
  close_record-Keeps status message = Keeps-if _ _ _ (Keeps-refl m) (
      conclude-Keeps m i r at_i _ (record {
        task_id = refl;
        prompt = refl;
        steps = refl;
        confirmed = refl;
        requested = λ h. h;
      }))

  stop_record-Keeps : Keeps m (stop_record m (some r))
  unfolding stop_record
  stop_record-Keeps = Keeps-branch _ (Keeps-refl m) (
      Keeps-write m _ i r _ at_i
        (record {
          task_id = refl;
          prompt = refl;
          steps = refl;
          confirmed = refl;
          requested = λ h. refl;
        })
        (saved-IsWrite m _))

module _ (m : TaskManager) where
  find-get : (i : ℕ) {r : TaskRecord} → find m i ≡ some r → get m.records i ≡ some r
  unfolding find
  find-get i e = ground arith

  cancel-Keeps : (i : ℕ) → Keeps m (cancel m i).1
  unfolding cancel
  cancel-Keeps i =
      Keeps-found _ _ (find m i) (Keeps-refl m)
        (λ r e. cancel_record-Keeps m i r (find-get i e) r.status)

  close_waiting-Keeps :
      (i : ℕ) (status : AgentTaskStatus) (message : String)
      → Keeps m (close_waiting m i status message).1
  unfolding close_waiting
  close_waiting-Keeps i status message = Keeps-if _ _ _ (Keeps-refl m) (
      Keeps-found _ _ (find m i) (Keeps-refl m)
        (λ r e. close_record-Keeps m i r (find-get i e) status message))

  start-Keeps : Keeps m (start m)
  start-Keeps =
      Keeps-same m _ (unfold start in ground arith) (unfold start in ground arith)
        (unfold start in ground arith)

  stop_found-Keeps :
      (i : ℕ) (o : Option TaskRecord) → get m.records i ≡ o → Keeps m (stop_record m o)
  stop_found-Keeps i none e = unfold stop_record in Keeps-refl m
  stop_found-Keeps i (some r) e = stop_record-Keeps m i r e

stop_records-Keeps : (m : TaskManager) (ids : List ℕ) → Keeps m (stop_records m ids)
unfolding stop_records
stop_records-Keeps m [] = Keeps-refl m
stop_records-Keeps m (i ∷ ids) =
    let next = stop_record m (get m.records i) in
    Keeps-trans (stop_found-Keeps m i _ refl) (stop_records-Keeps next ids)

stop-Keeps : (m : TaskManager) → Keeps m (stop m)
unfolding stop
stop-Keeps m =
    let flagged = record m { stopping = true } in
    let all =
      Keeps-trans (Keeps-same m flagged refl refl refl) (stop_records-Keeps flagged m.tracked) in
    let m' = stop_records flagged m.tracked in
    Keeps-branch (leb m'.maximum_tasks (length m'.queue)) all
      (Keeps-trans all (Keeps-same m' (record m' { queue = m'.queue ++ none ∷ [] }) refl refl refl))

-- A new record stands under an id that no record has.
module _ (m m' : TaskManager) (r : TaskRecord) (own : r.task_id ≡ m.next_id)
    (w : m'.records ≡ put m.records m.next_id r) (n : m'.next_id ≡ m.next_id + 1) where
  get-added : (j : ℕ) → get m'.records j ≡ (if m.next_id == j then some r else get m.records j)
  get-added j = ap (λ d. get d j) w ∙ get-put m.records m.next_id j r

  Keeps-add : KeepsRecords m m'
  Keeps-add = record {
    keyed = λ k j x e. ground (arith, get-added j, k j x, own, n);
    persists = λ k j x e. (x, ground (arith, get-added j, k j x e, e), IsLater-refl x);
  }

enqueue-Keeps :
    (m : TaskManager) (prompt : String) (steps : List AgentPlan) (confirmed : Bool)
    → KeepsRecords m (enqueue m prompt steps confirmed).1
unfolding enqueue notify_progress trim
enqueue-Keeps m prompt steps confirmed =
    let r = new_record m.next_id prompt steps confirmed in
    let added = record m {
      next_id = m.next_id + 1;
      records = put m.records m.next_id r;
      tracked = m.tracked ++ m.next_id ∷ [];
    } in
    let aside = save-IsAside (trim added) r in Keeps-add m _ r refl aside.records aside.next_id

KeepsRecords-if :
    {A : Type 0} {m : TaskManager} (x y : A × TaskManager) (b : Bool)
    → KeepsRecords m x.1
    → KeepsRecords m y.1
    → KeepsRecords m (if b then x else y).1
KeepsRecords-if x y true h k = h
KeepsRecords-if x y false h k = k

submit_started-Keeps :
    (m : TaskManager) (prompt : String) (steps : List AgentPlan) (confirmed : Bool)
    → KeepsRecords m (submit_started m prompt steps confirmed).1
unfolding submit_started
submit_started-Keeps m prompt steps confirmed =
    KeepsRecords-if _ _ (leb m.maximum_tasks (length m.queue)) (Keeps-refl m).of_records
      (enqueue-Keeps m prompt steps confirmed)

submit-Keeps :
    (m : TaskManager) (prompt : String) (steps : List AgentPlan) (confirmed : Bool)
    → KeepsRecords m (submit m prompt steps confirmed).1
unfolding submit
submit-Keeps m prompt steps confirmed =
    KeepsRecords-if _ _ (not (leb 1 (length steps) && leb (length steps) 4))
      (Keeps-refl m).of_records
      (KeepsRecords-trans (start-Keeps m).of_records
        (submit_started-Keeps (start m) prompt steps confirmed))

abbrev pub is_submit : Action → Bool
is_submit (submits prompt steps confirmed) = true
is_submit _ = false

module _ (tools : Tools) where
  pub other-Keeps : (m : TaskManager) (a : Action) → is_submit a ≡ false → Keeps m (act tools m a)
  unfolding act
  other-Keeps m (submits prompt steps confirmed) o = cc
  other-Keeps m (cancels i) o = cancel-Keeps m i
  other-Keeps m (closes i status message) o = close_waiting-Keeps m i status message
  other-Keeps m drains o = unfold drain_notifications in Keeps-same m _ refl refl refl
  other-Keeps m starts o = start-Keeps m
  other-Keeps m stops o = stop-Keeps m
  other-Keeps m (works now) o = work-Keeps tools now m

  pub act-Keeps : (m : TaskManager) (a : Action) → KeepsRecords m (act tools m a)
  unfolding act
  act-Keeps m (submits prompt steps confirmed) = submit-Keeps m prompt steps confirmed
  act-Keeps m (cancels i) = (other-Keeps m (cancels i) refl).of_records
  act-Keeps m (closes i status message) = (other-Keeps m (closes i status message) refl).of_records
  act-Keeps m drains = (other-Keeps m drains refl).of_records
  act-Keeps m starts = (other-Keeps m starts refl).of_records
  act-Keeps m stops = (other-Keeps m stops refl).of_records
  act-Keeps m (works now) = (other-Keeps m (works now) refl).of_records
