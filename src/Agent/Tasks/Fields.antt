-- ===== src/Agent/Tasks/Fields.antt =====
-- Which fields of the manager the helpers of ron/agent/task_manager.py change.
use ron_personal_assistant.Prelude.{◌≡◌, arith}
use ron_personal_assistant.Prelude.Dict.{nat_key, put}
use ron_personal_assistant.Agent.Tasks.{
  TaskRecord, TaskManager, save, notify_progress, write, finish, publish, conclude,
}

module _ (m : TaskManager) (r : TaskRecord) where
  -- The journal aside, saving changes nothing.
  pub record IsAside (m' : TaskManager) : Type 0 where
    pub records : m'.records ≡ m.records
    pub next_id : m'.next_id ≡ m.next_id
    pub place : m'.place ≡ m.place
    pub queue : m'.queue ≡ m.queue
    pub tracked : m'.tracked ≡ m.tracked
    pub stopping : m'.stopping ≡ m.stopping
    pub maximum_tasks : m'.maximum_tasks ≡ m.maximum_tasks
    pub retained_tasks : m'.retained_tasks ≡ m.retained_tasks

  pub save-IsAside : IsAside (save m r)
  unfolding save
  save-IsAside = ground arith

-- An assignment of one record, and what is told of it.
pub record IsWrite (m : TaskManager) (r : TaskRecord) (m' : TaskManager) : Type 0 where
  pub records : m'.records ≡ put m.records r.task_id r
  pub next_id : m'.next_id ≡ m.next_id
  pub place : m'.place ≡ m.place
  pub queue : m'.queue ≡ m.queue
  pub tracked : m'.tracked ≡ m.tracked
  pub stopping : m'.stopping ≡ m.stopping
  pub maximum_tasks : m'.maximum_tasks ≡ m.maximum_tasks
  pub retained_tasks : m'.retained_tasks ≡ m.retained_tasks

module _ (m : TaskManager) (r : TaskRecord) where
  pub conclude-IsWrite : IsWrite m r (conclude m r)
  unfolding conclude finish save notify_progress write
  conclude-IsWrite = ground arith

  pub publish-IsWrite : IsWrite m r (publish m r)
  unfolding publish save notify_progress write
  publish-IsWrite = ground arith

  pub saved-IsWrite : IsWrite m r (save (write m r) r)
  unfolding save write
  saved-IsWrite = ground arith
