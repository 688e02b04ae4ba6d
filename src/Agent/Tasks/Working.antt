-- ===== src/Agent/Tasks/Working.antt =====
-- Each step of the worker of ron/agent/task_manager.py keeps the records.
use ron_personal_assistant.Prelude.{
  ℕ, String, ◌≡◌, refl, ◌∙◌, Bool, true, false, Option, none, some, List, [], ◌∷◌, if◌then◌else◌,
  get_elem?,
}
use ron_personal_assistant.Prelude.Dict.{nat_key, get}
use ron_personal_assistant.Agent.Models.{
  AgentTaskStatus, AgentPlan, ToolResult, ToolStatus, clarification_required,
}
use ron_personal_assistant.Agent.Tasks.{
  TaskRecord, TaskManager, Place, idle, entered, preflighting, at_step, executing, ended, publish,
  conclude,
}
use ron_personal_assistant.Agent.Tasks.Fields.{conclude-IsWrite, publish-IsWrite}
use ron_personal_assistant.Agent.Tasks.Keeping.{
  IsLater, Keeps, Keeps-trans, Keeps-same, Keeps-write,
}
use ron_personal_assistant.Agent.Tasks.Worker.{
  Tools, Checked, passed, crashed, refused, move, interrupt, fail, enter, begin, complete,
  start_step, loop_head, after_step, run_step, take_next, work_at, work, on_record,
}

pub Keeps-refl : (m : TaskManager) → Keeps m m
Keeps-refl m = Keeps-same m m refl refl refl

Keeps-move : (m m' : TaskManager) (p : Place) → Keeps m m' → Keeps m (move m' p)
Keeps-move m m' p h = Keeps-trans h (Keeps-same m' (move m' p) refl refl refl)

pub Keeps-branch :
    {m x y : TaskManager} (b : Bool) → Keeps m x → Keeps m y → Keeps m (if b then x else y)
Keeps-branch true h k = h
Keeps-branch false h k = k

pub Keeps-if :
    {A : Type 0} {m : TaskManager} (x y : A × TaskManager) (b : Bool)
    → Keeps m x.1
    → Keeps m y.1
    → Keeps m (if b then x else y).1
Keeps-if x y true h k = h
Keeps-if x y false h k = k

Keeps-option :
    {A : Type 0} {m : TaskManager} (x : TaskManager) (f : A → TaskManager) (o : Option A)
    → Keeps m x
    → ((a : A) → o ≡ some a → Keeps m (f a))
    → Keeps m (elim o [ none ↦ x | some a ↦ f a ])
Keeps-option x f none h k = h
Keeps-option x f (some a) h k = k a refl

pub Keeps-found :
    {A B : Type 0} {m : TaskManager} (x : B × TaskManager) (f : A → B × TaskManager) (o : Option A)
    → Keeps m x.1
    → ((a : A) → o ≡ some a → Keeps m (f a).1)
    → Keeps m (elim o as (λ x. B × TaskManager) [ none ↦ x | some a ↦ f a ]).1
Keeps-found x f none h k = h
Keeps-found x f (some a) h k = k a refl

module _ (m : TaskManager) (i : ℕ) (r : TaskRecord) (at_i : get m.records i ≡ some r) where
  pub conclude-Keeps : (r' : TaskRecord) → IsLater r r' → Keeps m (conclude m r')
  conclude-Keeps r' l = Keeps-write m _ i r r' at_i l (conclude-IsWrite m r')

  pub publish-Keeps : (r' : TaskRecord) → IsLater r r' → Keeps m (publish m r')
  publish-Keeps r' l = Keeps-write m _ i r r' at_i l (publish-IsWrite m r')

  -- `r'` has the identity, the orders and the cancel flag of `r`.
  abbrev SameOrders : (r' : TaskRecord) → Type 0
  SameOrders r' =
      (r'.task_id ≡ r.task_id)
      × (r'.prompt ≡ r.prompt)
      × (r'.steps ≡ r.steps)
      × (r'.confirmed ≡ r.confirmed)
      × (r'.cancel_requested ≡ r.cancel_requested)

  later : (r' : TaskRecord) → SameOrders r' → IsLater r r'
  later r' (a, b, c, d, e) = record {
    task_id = a;
    prompt = b;
    steps = c;
    confirmed = d;
    requested = λ h. e ∙ h;
  }

  module _ (tools : Tools) (now : ℕ) where
    interrupt-Keeps :
        (status : AgentTaskStatus) (message : String)
        → Keeps m (interrupt tools now m r status message)
    unfolding interrupt
    interrupt-Keeps status message = conclude-Keeps _ (later _ (refl, refl, refl, refl, refl))

    fail-Keeps : (n : ℕ) (failure : ToolResult) → Keeps m (fail tools now m r n failure)
    unfolding fail
    fail-Keeps n failure = conclude-Keeps _ (later _ (refl, refl, refl, refl, refl))

    after_step-Keeps :
        (index : ℕ) (plan : AgentPlan) (result : ToolResult) (status : ToolStatus)
        → Keeps m (after_step tools now m r index plan result status)
    unfolding after_step
    after_step-Keeps index plan result clarification_required =
        Keeps-move m _ _ (conclude-Keeps _ (later _ (refl, refl, refl, refl, refl)))
    after_step-Keeps index plan result ToolStatus.cancelled = Keeps-move m _ _ (interrupt-Keeps _ _)
    after_step-Keeps index plan result ToolStatus.timed_out = Keeps-move m _ _ (interrupt-Keeps _ _)
    after_step-Keeps index plan result ToolStatus.success =
        Keeps-move m _ _ (publish-Keeps _ (later _ (refl, refl, refl, refl, refl)))
    after_step-Keeps index plan result _ = Keeps-move m _ _ (fail-Keeps _ _)

    begin-Keeps : (c : Checked) → Keeps m (begin tools now m r c)
    unfolding begin
    begin-Keeps crashed = Keeps-move m _ _ (Keeps-refl m)
    begin-Keeps (refused index message) =
        Keeps-move m _ _ (conclude-Keeps _ (later _ (refl, refl, refl, refl, refl)))
    begin-Keeps passed = Keeps-move m _ _ (publish-Keeps _ (later _ (refl, refl, refl, refl, refl)))

    start_step-Keeps : (index : ℕ) (o : Option String) → Keeps m (start_step tools now m r index o)
    unfolding start_step
    start_step-Keeps index none = Keeps-move m _ _ (Keeps-refl m)
    start_step-Keeps index (some name) =
        Keeps-branch _ (Keeps-move m _ _ (interrupt-Keeps _ _))
          (Keeps-move m _ _ (publish-Keeps _ (later _ (refl, refl, refl, refl, refl))))

    loop_head-Keeps : (index : ℕ) → Keeps m (loop_head tools now m r index)
    unfolding loop_head complete
    loop_head-Keeps index =
        Keeps-option _ _ (get_elem? r.steps index)
          (Keeps-move m _ _ (conclude-Keeps _ (later _ (refl, refl, refl, refl, refl))))
          (λ plan e. start_step-Keeps index plan.tool_name)

    run_step-Keeps : (index : ℕ) → Keeps m (run_step tools now m r index)
    unfolding run_step
    run_step-Keeps index =
        Keeps-option _ _ (get_elem? r.steps index) (Keeps-move m _ _ (Keeps-refl m)) (λ plan e.
          Keeps-option _ _ plan.tool_name (Keeps-move m _ _ (Keeps-refl m))
            (λ name named. after_step-Keeps index plan _ _))

module _ (tools : Tools) (now : ℕ) (m : TaskManager) where
  on_record-Keeps :
      (i : ℕ) (f : TaskRecord → TaskManager)
      → ((r : TaskRecord) → get m.records i ≡ some r → Keeps m (f r))
      → Keeps m (on_record tools now m i f)
  on_record-Keeps i f each = Keeps-option _ _ (get m.records i) (Keeps-refl m) each

  take_next-Keeps : (q : List (Option ℕ)) → Keeps m (take_next tools now m q)
  unfolding take_next
  take_next-Keeps [] = Keeps-refl m
  take_next-Keeps (none ∷ rest) = Keeps-same m _ refl refl refl
  take_next-Keeps (some i ∷ rest) = Keeps-same m _ refl refl refl

  enter-Keeps : (r : TaskRecord) → Keeps m (enter tools now m r)
  unfolding enter
  enter-Keeps r = Keeps-branch _ (Keeps-move m _ _ (Keeps-refl m)) (Keeps-move m _ _ (Keeps-refl m))

  work_at-Keeps : (p : Place) → Keeps m (work_at tools now m p)
  unfolding work_at
  work_at-Keeps idle = Keeps-branch _ (Keeps-move m _ _ (Keeps-refl m)) (take_next-Keeps m.queue)
  work_at-Keeps (entered i) = on_record-Keeps i _ (λ r e. enter-Keeps r)
  work_at-Keeps (preflighting i) = on_record-Keeps i _ (λ r e. begin-Keeps m i r e tools now _)
  work_at-Keeps (at_step i index) =
      on_record-Keeps i _ (λ r e. loop_head-Keeps m i r e tools now index)
  work_at-Keeps (executing i index) =
      on_record-Keeps i _ (λ r e. run_step-Keeps m i r e tools now index)
  work_at-Keeps ended = Keeps-refl m

  pub work-Keeps : Keeps m (work tools now m)
  work-Keeps = unfold work in work_at-Keeps m.place
