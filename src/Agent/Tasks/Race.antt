-- ===== src/Agent/Tasks/Race.antt =====
-- `cancel` and the worker's preflight of ron/agent/task_manager.py, when they meet.
use ron_personal_assistant.Prelude.{
  ℕ, ◌+◌, String, ◌≡◌, refl, ap, ◌∙◌, true, Option, none, some, List, [], ◌∷◌, ◌++◌, arith, length,
  length-append, get_elem?, f_string, decimal, join,
}
use ron_personal_assistant.Prelude.Dict.{nat_key, get}
use ron_personal_assistant.Agent.Models.{AgentTaskStatus, queued, running, AgentPlan}
use ron_personal_assistant.Agent.Tasks.{
  TaskRecord, snapshot_of, TaskManager, idle, at_step, preflighting, publish, conclude, find,
  cancel, cancel_record,
}
use ron_personal_assistant.Agent.Tasks.Fields.{conclude-IsWrite}
use ron_personal_assistant.Agent.Tasks.Keeping.{IsKeyed}
use ron_personal_assistant.Agent.Tasks.Worker.{
  Tools, passed, move, interrupt, compensate_completed, when_any, start_step, loop_head, complete,
  on_record, preflight_steps, begin, work_at, work,
}
use ron_personal_assistant.Agent.Tasks.Reports.{
  after-conclude, HasStatus, after-publish, cancel_found, find-get, notifications-conclude,
  notifications-publish,
}

module _ (tools : Tools) (now : ℕ) (m : TaskManager) (i : ℕ) (r : TaskRecord)
    (at_i : get m.records i ≡ some r) (own : r.task_id ≡ i) where
  on_record_found : (f : TaskRecord → TaskManager) → on_record tools now m i f ≡ f r
  on_record_found f = ap (λ (o : Option TaskRecord). elim o [ none ↦ m | some r ↦ f r ]) at_i

  abbrev started_task : TaskRecord
  started_task = record r {
    status = running;
    message = f_string ("Starting " ∷ decimal (length r.steps) ∷ " validated steps." ∷ []);
  }

  work-preflighting :
      m.place ≡ preflighting i
      → preflight_steps tools now r.confirmed 1 r.steps ≡ passed
      → (t : TaskRecord) × (t.status ≡ running)
        × (t.task_id ≡ i)
        × (t.steps ≡ r.steps)
        × (t.cancel_requested ≡ r.cancel_requested)
        × (work tools now m ≡ move (publish m t) (at_step i 0))
  unfolding work work_at begin
  work-preflighting p c = (
    started_task,
    refl,
    own,
    refl,
    refl,
    ap (work_at tools now m) p
        ∙ (on_record_found _
            ∙ (ap (begin tools now m r) c
                ∙ ap (λ j. move (publish m started_task) (at_step j 0)) own)),
  )

  abbrev cancelled_at_step : TaskRecord
  cancelled_at_step =
      let (rolled_back, rollback_failed) = compensate_completed tools now r in
      record r {
        status = AgentTaskStatus.cancelled;
        current_tool = none;
        message = join " " (
            f_string (
              "Cancelled safely after "
              ∷ decimal r.completed_steps
              ∷ " of "
              ∷ decimal (length r.steps)
              ∷ " steps."
              ∷ [])
            ∷ (when_any tools now r.completed_messages "Completed before interruption: "
                ++ when_any tools now rolled_back "Safely rolled back: "
                ++ when_any tools now rollback_failed "Rollback warning: "));
      }

  stops_here :
      (name : String)
      → r.cancel_requested ≡ true
      → start_step tools now m r 0 (some name) ≡ move (conclude m cancelled_at_step) idle
  unfolding start_step interrupt
  stops_here name c = rw (c, start_step) refl

  work-at_step :
      (name : String) (plan : AgentPlan) (plans : List AgentPlan)
      → m.place ≡ at_step i 0
      → r.steps ≡ plan ∷ plans
      → plan.tool_name ≡ some name
      → r.cancel_requested ≡ true
      → (t : TaskRecord) × (t.status ≡ AgentTaskStatus.cancelled)
        × (t.task_id ≡ i)
        × (work tools now m ≡ move (conclude m t) idle)
  unfolding work work_at loop_head
  work-at_step name plan plans p s n c = (
    cancelled_at_step,
    refl,
    own,
    ap (work_at tools now m) p
        ∙ (on_record_found _
            ∙ (ap
                  (λ plans. elim (get_elem? plans 0) [
                    | none ↦ complete tools now m r
                    | some plan ↦ start_step tools now m r 0 plan.tool_name
                  ])
                  s
                ∙ (ap (start_step tools now m r 0) n ∙ stops_here name c))),
  )

queued_cancelled :
    (m : TaskManager) (i : ℕ) (r : TaskRecord)
    → find m i ≡ some r
    → r.status ≡ queued
    → (t : TaskRecord) × (t.status ≡ AgentTaskStatus.cancelled)
      × (t.task_id ≡ r.task_id)
      × (t.steps ≡ r.steps)
      × (t.confirmed ≡ r.confirmed)
      × (t.cancel_requested ≡ true)
      × ((cancel m i).1 ≡ conclude m t)
unfolding cancel_record
queued_cancelled m i r e q = (
  record r {
    cancel_requested = true;
    status = AgentTaskStatus.cancelled;
    message = "Cancelled before the first step ran.";
    current_tool = none;
  },
  refl,
  refl,
  refl,
  refl,
  refl,
  ap (λ x. x.1) (cancel_found m i r e) ∙ rw (q, cancel_record) refl,
)

-- Where every record stands under its own id, the worker is past its preflight of a queued task when
-- the task is cancelled: the client is told
-- that it is CANCELLED, and if all steps pass the preflight then the worker makes it RUNNING after
-- that, and cancels it a second time in its next step, with a second notification.
pub cancel_race :
    (tools : Tools) (now later : ℕ) (m : TaskManager) (i : ℕ) (r : TaskRecord) (name : String)
    (plan : AgentPlan) (plans : List AgentPlan)
    → IsKeyed m
    → find m i ≡ some r
    → r.status ≡ queued
    → r.steps ≡ plan ∷ plans
    → plan.tool_name ≡ some name
    → m.place ≡ preflighting i
    → preflight_steps tools now r.confirmed 1 r.steps ≡ passed
    → let told = (cancel m i).1 in
      let once = work tools now told in
      let twice = work tools later once in
      HasStatus told i AgentTaskStatus.cancelled
      × HasStatus once i running
      × HasStatus twice i AgentTaskStatus.cancelled
      × (length twice.notifications ≡ length m.notifications + 2)
cancel_race tools now later m i r name plan plans k e q s t p c =
    let own = (k i r (find-get m i e)).0 in
    let (r1, cancelled1, id1, steps1, confirmed1, flag1, is1) = queued_cancelled m i r e q in
    let told = (cancel m i).1 in
    let e1 : get told.records i ≡ some r1 =
      ap (λ x. get x.records i) is1 ∙ after-conclude m i r1 (id1 ∙ own) in
    let p1 : told.place ≡ preflighting i =
      ap (λ x. x.place) is1 ∙ ((conclude-IsWrite m r1).place ∙ p) in
    let c1 : preflight_steps tools now r1.confirmed 1 r1.steps ≡ passed =
      rw (steps1, confirmed1) c in
    let (r2, running2, id2, steps2, flag2, is2) =
      work-preflighting tools now told i r1 e1 (id1 ∙ own) p1 c1 in
    let once = work tools now told in
    let e2 : get once.records i ≡ some r2 =
      ap (λ x. get x.records i) is2 ∙ after-publish told i r2 id2 in
    let p2 : once.place ≡ at_step i 0 = ap (λ x. x.place) is2 in
    let (r3, cancelled3, id3, is3) =
      work-at_step tools later once i r2 e2 id2 name plan plans p2 (steps2 ∙ (steps1 ∙ s)) t
        (flag2 ∙ flag1) in
    let n1 = ap (λ x. x.notifications) is1 ∙ notifications-conclude m r1 in
    let n2 = ap (λ x. x.notifications) is2 ∙ notifications-publish told r2 in
    let n3 = ap (λ x. x.notifications) is3 ∙ notifications-conclude once r3 in
    (
      record { task = r1; found = e1; status_is = cancelled1 },
      record { task = r2; found = e2; status_is = running2 },
      record {
        task = r3;
        found = ap (λ x. get x.records i) is3 ∙ after-conclude once i r3 id3;
        status_is = cancelled3;
      },
      ap length n3
          ∙ (ap (λ x. length (x ++ snapshot_of r3 ∷ [])) (n2 ∙ n1) ∙ grind (arith, length-append)),
    )
