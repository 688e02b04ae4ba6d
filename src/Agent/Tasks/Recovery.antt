-- ===== src/Agent/Tasks/Recovery.antt =====
-- `_recover` of ron/agent/task_manager.py: after a restart nothing resumes by itself.
use ron_personal_assistant.Prelude.{
  ℕ, ◌+◌, ◌≡◌, refl, ap, ◌∙◌, Bool, true, false, ◌&&◌, ◌||◌, not, Option, none, some, List, [], ◌∷◌,
  arith, ltb, leb, ◌==◌, ==_iff, if◌then◌else◌, ok, err,
}
use ron_personal_assistant.Prelude.Dict.{nat_key, get, put, get-put}
use ron_personal_assistant.Agent.Tasks.{
  TaskRecord, TaskManager, TaskError, ended, Journal, JournalEntry, record_from_entry, load_recent,
  save, write, is_unfinished, known, given_up, recover_record, recover_entries, recover,
  new_manager,
}
use ron_personal_assistant.Agent.Tasks.Fields.{saved-IsWrite}
use ron_personal_assistant.Agent.Tasks.Keeping.{IsKeyed}

-- Nothing is queued or running, in the records and in the queue, and no worker runs.
pub record IsAtRest (m : TaskManager) : Type 0 where
  pub keyed : IsKeyed m
  pub settled : (j : ℕ) (r : TaskRecord) → get m.records j ≡ some r → is_unfinished r.status ≡ false
  pub queue_empty : m.queue ≡ []
  pub no_worker : m.place ≡ ended

IsAtRest-branch :
    {x y : TaskManager} (b : Bool)
    → (b ≡ true → IsAtRest x)
    → (b ≡ false → IsAtRest y)
    → IsAtRest (if b then x else y)
IsAtRest-branch true h k = h refl
IsAtRest-branch false h k = k refl

module _ (m : TaskManager) (h : IsAtRest m) (r : TaskRecord) where
  -- The manager with one more settled record.
  IsAtRest-put :
      (m' : TaskManager) (s : TaskRecord)
      → s.task_id ≡ r.task_id
      → is_unfinished s.status ≡ false
      → ((j : ℕ) → get m'.records j ≡ (if r.task_id == j then some s else get m.records j))
      → m'.next_id ≡ (if ltb m.next_id (r.task_id + 1) then r.task_id + 1 else m.next_id)
      → m'.queue ≡ m.queue
      → m'.place ≡ m.place
      → IsAtRest m'
  IsAtRest-put m' s own done at_j next q p = record {
    keyed = λ j x e. ground (arith, at_j j, h.keyed j x, ==_iff r.task_id j, next);
    settled = λ j x e. ground (arith, at_j j, h.settled j x);
    queue_empty = q ∙ h.queue_empty;
    no_worker = p ∙ h.no_worker;
  }

  known-IsAtRest : is_unfinished r.status ≡ false → IsAtRest (known m r)
  known-IsAtRest done =
      IsAtRest-put (known m r) r refl done (λ j. get-put m.records r.task_id j r) refl refl refl

  given_up-IsAtRest : IsAtRest (save (write (known m r) (given_up r)) (given_up r))
  given_up-IsAtRest =
      let w = saved-IsWrite (known m r) (given_up r) in
      IsAtRest-put _ (given_up r) refl refl
        (λ j.
          ap (λ d. get d j) w.records
          ∙ ground (
            arith,
            get-put (put m.records r.task_id r) r.task_id j (given_up r),
            get-put m.records r.task_id j r,
          ))
        w.next_id w.queue w.place

  recover_record-IsAtRest : IsAtRest (recover_record m r)
  unfolding recover_record
  recover_record-IsAtRest =
      IsAtRest-branch (not (is_unfinished r.status)) (λ e. known-IsAtRest (ground arith))
        (λ e. given_up-IsAtRest)

recover_entries-IsAtRest :
    (m : TaskManager) (entries : List JournalEntry)
    → IsAtRest m
    → IsAtRest (recover_entries m entries)
unfolding recover_entries
recover_entries-IsAtRest m [] h = h
recover_entries-IsAtRest m (entry ∷ entries) h =
    recover_entries-IsAtRest (recover_record m (record_from_entry entry)) entries
      (recover_record-IsAtRest m h (record_from_entry entry))

recover-IsAtRest : (m : TaskManager) → IsAtRest m → IsAtRest (recover m)
unfolding recover
recover-IsAtRest m h = go m.journal
  where
    go :
        (o : Option Journal)
        → IsAtRest (elim o [
          | none ↦ m
          | some rows ↦ recover_entries m (load_recent rows m.retained_tasks)
        ])
    go none = h
    go (some rows) = recover_entries-IsAtRest m (load_recent rows m.retained_tasks) h

Rests-ok :
    {m m' : TaskManager} (error : TaskError) (b : Bool)
    → IsAtRest m'
    → (if b then err error else ok m') ≡ ok m
    → IsAtRest m
Rests-ok error true h e = ground arith
Rests-ok {m} {m'} error false h e = let same : m' ≡ m = ground arith in rw⁻¹ same h

-- A manager that opens, with a journal of any content: no recovered task is queued or running, the
-- queue is empty and there is no worker, each record stands under its id, and ids to come are new.
pub new_manager-IsAtRest :
    (journal : Option Journal) (maximum_tasks retained_tasks : ℕ) (m : TaskManager)
    → new_manager journal maximum_tasks retained_tasks ≡ ok m
    → IsAtRest m
unfolding new_manager get
new_manager-IsAtRest journal maximum_tasks retained_tasks m e =
    Rests-ok _
      (not (leb 1 maximum_tasks && leb maximum_tasks 100)
        || not (leb 1 retained_tasks && leb retained_tasks maximum_tasks))
      (recover-IsAtRest _ (record {
        keyed = λ j r f. ground arith;
        settled = λ j r f. ground arith;
        queue_empty = refl;
        no_worker = refl;
      }))
      e
