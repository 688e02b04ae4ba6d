-- ===== src/Agent/Tasks/Reports.antt =====
-- What `cancel` of ron/agent/task_manager.py reports.
use ron_personal_assistant.Prelude.{
  ℕ, ◌≡◌, ◌⊎◌, refl, ap, ◌∙◌, inl, inr, true, false, some, [], ◌∷◌, ◌++◌, arith, ==_refl,
}
use ron_personal_assistant.Prelude.Dict.{nat_key, get, get-put}
use ron_personal_assistant.Agent.Models.{
  AgentTaskStatus, queued, running, waiting, resolved, AgentTaskSnapshot,
}
use ron_personal_assistant.Agent.Tasks.{
  TaskRecord, snapshot_of, is_closed, TaskManager, publish, conclude, find, cancel, cancel_record,
  finish, save, notify_progress, write,
}
use ron_personal_assistant.Agent.Tasks.Fields.{conclude-IsWrite, publish-IsWrite}
use ron_personal_assistant.Agent.Tasks.Keeping.{IsKeyed}
use ron_personal_assistant.Agent.Tasks.Cancellation.{IsRequested}

pub notifications-conclude :
    (m : TaskManager) (r : TaskRecord)
    → (conclude m r).notifications ≡ m.notifications ++ snapshot_of r ∷ []
unfolding conclude finish save notify_progress write
notifications-conclude m r = ground arith

pub notifications-publish :
    (m : TaskManager) (r : TaskRecord) → (publish m r).notifications ≡ m.notifications
unfolding publish save notify_progress write
notifications-publish m r = ground arith

-- The record of the task, with this status.
pub record HasStatus (m : TaskManager) (i : ℕ) (status : AgentTaskStatus) : Type 0 where
  pub task : TaskRecord
  pub found : get m.records i ≡ some task
  pub status_is : task.status ≡ status

module _ (m : TaskManager) (i : ℕ) where
  pub after-conclude : (r : TaskRecord) → r.task_id ≡ i → get (conclude m r).records i ≡ some r
  after-conclude r own =
      ap (λ d. get d i) (conclude-IsWrite m r).records
      ∙ (get-put m.records r.task_id i r ∙ rw own (rw ==_refl refl))

  pub after-publish : (r : TaskRecord) → r.task_id ≡ i → get (publish m r).records i ≡ some r
  after-publish r own =
      ap (λ d. get d i) (publish-IsWrite m r).records
      ∙ (get-put m.records r.task_id i r ∙ rw own (rw ==_refl refl))

  -- What a cancellation does to an open task: the request is on record, and the task is CANCELLED
  -- and reported, unless it is running.
  abbrev pub IsCancelling : TaskRecord → AgentTaskStatus → AgentTaskSnapshot × TaskManager → Type 0
  IsCancelling r running (s, m') =
      IsRequested m' i × HasStatus m' i running × (m'.notifications ≡ m.notifications)
  IsCancelling r _ (s, m') =
      IsRequested m' i
      × HasStatus m' i AgentTaskStatus.cancelled
      × (m'.notifications ≡ m.notifications ++ s ∷ [])

  cancel_record_lem :
      (r : TaskRecord) (status : AgentTaskStatus)
      → r.task_id ≡ i
      → r.status ≡ status
      → ((is_closed status ≡ true) × (cancel_record m r status ≡ (snapshot_of r, m)))
        ⊎ ((is_closed status ≡ false) × IsCancelling r status (cancel_record m r status))
  unfolding cancel_record
  cancel_record_lem r queued own s = inr (
    refl,
    (
      record { task = _; found = after-conclude _ own; flag = refl },
      record { task = _; found = after-conclude _ own; status_is = refl },
      notifications-conclude m _,
    ),
  )
  cancel_record_lem r waiting own s = inr (
    refl,
    (
      record { task = _; found = after-conclude _ own; flag = refl },
      record { task = _; found = after-conclude _ own; status_is = refl },
      notifications-conclude m _,
    ),
  )
  cancel_record_lem r running own s = inr (
    refl,
    (
      record { task = _; found = after-publish _ own; flag = refl },
      record { task = _; found = after-publish _ own; status_is = s },
      notifications-publish m _,
    ),
  )
  cancel_record_lem r resolved own s = inl (refl, refl)
  cancel_record_lem r _ own s = inl (refl, refl)

pub find-get :
    (m : TaskManager) (i : ℕ) {r : TaskRecord} → find m i ≡ some r → get m.records i ≡ some r
unfolding find
find-get m i e = ground arith

pub cancel_found :
    (m : TaskManager) (i : ℕ) (r : TaskRecord)
    → find m i ≡ some r
    → cancel m i ≡ (some (cancel_record m r r.status).0, (cancel_record m r r.status).1)
unfolding cancel
cancel_found m i r e = rw (e, cancel) refl

-- Cancelling a task that is known, where every record stands under its own id. A closed task is left
-- alone and reported as it is. Of an open one the request is put on record; a running one is only
-- told, any other is closed as CANCELLED and the report goes to the notifications.
pub cancel_lem :
    (m : TaskManager) (i : ℕ) (r : TaskRecord)
    → IsKeyed m
    → find m i ≡ some r
    → ((is_closed r.status ≡ true) × (cancel m i ≡ (some (snapshot_of r), m)))
      ⊎ ((is_closed r.status ≡ false)
          × (s : AgentTaskSnapshot) × (m' : TaskManager) × (cancel m i ≡ (some s, m'))
          × IsCancelling m i r r.status (s, m'))
cancel_lem m i r k e = elim (cancel_record_lem m i r r.status (k i r (find-get m i e)).0 refl) [
  | inl (closed, same) ↦ inl (closed, cancel_found m i r e ∙ ap (λ x. (some x.0, x.1)) same)
  | inr (open_still, effects) ↦ inr (open_still, _, _, cancel_found m i r e, effects)
]
