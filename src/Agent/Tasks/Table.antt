-- ===== src/Agent/Tasks/Table.antt =====
-- Which tasks stay in the table of ron/agent/task_manager.py, whatever the threads do.
use ron_personal_assistant.Prelude.{
  ℕ, ◌+◌, String, ◌≡◌, ◌⊎◌, refl, ap, ◌∙◌, inl, inr, Bool, true, false, ◌&&◌, not, some, List, [],
  ◌∷◌, ◌++◌, arith, ◌==◌, ==_iff, if◌then◌else◌, leb, length, Bool-cases,
}
use ron_personal_assistant.Prelude.Dict.{nat_key, get, put, get-put}
use ron_personal_assistant.Agent.Models.{AgentPlan}
use ron_personal_assistant.Agent.Tasks.{
  TaskRecord, TaskManager, is_closed, new_record, notify_progress, start, trim, enqueue,
  submit_started, submit, find, closed_at, mem_nat,
}
use ron_personal_assistant.Agent.Tasks.Fields.{save-IsAside}
use ron_personal_assistant.Agent.Tasks.Keeping.{IsKeyed, IsLater, IsLater-refl, IsLater-trans}
use ron_personal_assistant.Agent.Tasks.Retention.{trim_keeps_open}
use ron_personal_assistant.Agent.Tasks.Preservation.{is_submit, other-Keeps, act-Keeps}
use ron_personal_assistant.Agent.Tasks.Worker.{Tools}
use ron_personal_assistant.Agent.Tasks.Schedule.{
  Action, submits, cancels, closes, drains, starts, stops, works, act, run,
}

find_lem :
    (m : TaskManager) (i : ℕ) (r : TaskRecord)
    → find m i ≡ some r
    → (mem_nat i m.tracked ≡ true) × (get m.records i ≡ some r)
unfolding find
find_lem m i r e = elim (Bool-cases (mem_nat i m.tracked)) [
  | inl here ↦ (here, ground arith)
  | inr gone ↦ ground (arith, gone)
]

find_here :
    (m : TaskManager) (i : ℕ) (r : TaskRecord)
    → mem_nat i m.tracked ≡ true
    → get m.records i ≡ some r
    → find m i ≡ some r
unfolding find
find_here m i r here e = rw here e

mem-append : (i : ℕ) (xs ys : List ℕ) → mem_nat i xs ≡ true → mem_nat i (xs ++ ys) ≡ true
unfolding mem_nat
mem-append i [] ys h = cc
mem-append i (x ∷ xs) ys h = ground (arith, mem-append i xs ys)

closed_found :
    (m : TaskManager) (i : ℕ) (r : TaskRecord)
    → get m.records i ≡ some r
    → closed_at m.records i ≡ is_closed r.status
unfolding closed_at
closed_found m i r e = ground arith

-- An open task survives the trimming of a submission.
enqueue_table :
    (m : TaskManager) (prompt : String) (steps : List AgentPlan) (confirmed : Bool) (i : ℕ)
    (r : TaskRecord)
    → IsKeyed m
    → get m.records i ≡ some r
    → is_closed r.status ≡ false
    → mem_nat i m.tracked ≡ true
    → mem_nat i (enqueue m prompt steps confirmed).1.tracked ≡ true
unfolding enqueue notify_progress
enqueue_table m prompt steps confirmed i r k e open_still here =
    let r' = new_record m.next_id prompt steps confirmed in
    let added = record m {
      next_id = m.next_id + 1;
      records = put m.records m.next_id r';
      tracked = m.tracked ++ m.next_id ∷ [];
    } in
    let below = (k i r e).1 in
    let other : (m.next_id == i) ≡ false = ground (arith, ==_iff m.next_id i) in
    let kept : get added.records i ≡ some r = get-put m.records m.next_id i r' ∙ rw other e in
    let still : closed_at added.records i ≡ false = closed_found added i r kept ∙ open_still in
    ap (mem_nat i) (save-IsAside (trim added) r').tracked
    ∙ trim_keeps_open added i (mem-append i m.tracked (m.next_id ∷ []) here) still

start_table : (m : TaskManager) → (start m).tracked ≡ m.tracked
unfolding start
start_table m = ground arith

start_records :
    (m : TaskManager) → ((start m).records ≡ m.records) × ((start m).next_id ≡ m.next_id)
unfolding start
start_records m = (ground arith, ground arith)

pair_tracked :
    {A : Type 0} (i : ℕ) (x y : A × TaskManager) (b : Bool)
    → mem_nat i x.1.tracked ≡ true
    → mem_nat i y.1.tracked ≡ true
    → mem_nat i (if b then x else y).1.tracked ≡ true
pair_tracked i x y true h k = h
pair_tracked i x y false h k = k

submit_table :
    (m : TaskManager) (prompt : String) (steps : List AgentPlan) (confirmed : Bool) (i : ℕ)
    (r : TaskRecord)
    → IsKeyed m
    → get m.records i ≡ some r
    → is_closed r.status ≡ false
    → mem_nat i m.tracked ≡ true
    → mem_nat i (submit m prompt steps confirmed).1.tracked ≡ true
unfolding submit submit_started
submit_table m prompt steps confirmed i r k e open_still here =
    let (same, next) = start_records m in
    let started : mem_nat i (start m).tracked ≡ true = ap (mem_nat i) (start_table m) ∙ here in
    let keyed : IsKeyed (start m) = λ j x f. rw next (k j x (rw same at f)) in
    pair_tracked i _ _ (not (leb 1 (length steps) && leb (length steps) 4)) here (
      pair_tracked i _ _ (leb (start m).maximum_tasks (length (start m).queue)) started
        (enqueue_table (start m) prompt steps confirmed i r keyed (rw same e) open_still started))

-- The task is in the table, with its id, prompt, steps and confirmation, and a request to cancel it
-- still stands.
abbrev pub Stays : ℕ → TaskRecord → TaskManager → Type 0
Stays i r m = (r' : TaskRecord) × (find m i ≡ some r') × IsLater r r'

submit_or_not :
    (a : Action)
    → ((prompt : String) × (steps : List AgentPlan) × (confirmed : Bool) × (a
          ≡ submits prompt steps confirmed))
      ⊎ (is_submit a ≡ false)
submit_or_not (submits prompt steps confirmed) = inl (prompt, steps, confirmed, refl)
submit_or_not (cancels i) = inr refl
submit_or_not (closes i status message) = inr refl
submit_or_not drains = inr refl
submit_or_not starts = inr refl
submit_or_not stops = inr refl
submit_or_not (works now) = inr refl

module _ (tools : Tools) where
  submitted_table :
      (m : TaskManager) (prompt : String) (steps : List AgentPlan) (confirmed : Bool) (i : ℕ)
      (r : TaskRecord)
      → IsKeyed m
      → get m.records i ≡ some r
      → is_closed r.status ≡ false
      → mem_nat i m.tracked ≡ true
      → mem_nat i (act tools m (submits prompt steps confirmed)).tracked ≡ true
  unfolding act
  submitted_table m prompt steps confirmed i r k e open_still here =
      submit_table m prompt steps confirmed i r k e open_still here

  -- A submission came while the task was closed.
  abbrev pub MayBeTrimmed : TaskManager → List Action → ℕ → Type 0
  MayBeTrimmed m actions i =
      (before : List Action) × (prompt : String) × (steps : List AgentPlan) × (confirmed : Bool)
      × (after : List Action) × (r : TaskRecord) × (actions
          ≡ before ++ submits prompt steps confirmed ∷ after)
      × (find (run tools m before) i ≡ some r)
      × (is_closed r.status ≡ true)

  step_Stays :
      (m : TaskManager) (a : Action) (i : ℕ) (r : TaskRecord)
      → IsKeyed m
      → find m i ≡ some r
      → Stays i r (act tools m a)
        ⊎ ((prompt : String) × (steps : List AgentPlan) × (confirmed : Bool) × (a
              ≡ submits prompt steps confirmed)
            × (is_closed r.status ≡ true))
  step_Stays m a i r k e =
      let (here, found) = find_lem m i r e in
      let (r', found', later_one) = (act-Keeps tools m a).persists k i r found in
      let stays : mem_nat i (act tools m a).tracked ≡ true → Stays i r (act tools m a) =
        λ h. (r', find_here (act tools m a) i r' h found', later_one) in
      elim (submit_or_not a) [
        | inl (prompt, steps, confirmed, same) ↦ elim (Bool-cases (is_closed r.status)) [
          | inl closed ↦ inr (prompt, steps, confirmed, same, closed)
          | inr open_still ↦ inl (
              stays (
                ap (λ x. mem_nat i (act tools m x).tracked) same
                ∙ submitted_table m prompt steps confirmed i r k found open_still here))
        ]
        | inr other ↦ inl (stays (ap (mem_nat i) (other-Keeps tools m a other).table ∙ here))
      ]

  -- Whatever the threads do, in any order: a task that is in the table stays there, with its id,
  -- prompt, steps and confirmation, and once its cancellation is requested it stays so; unless some
  -- submission came at a time when the task was closed, when the table may be trimmed.
  pub run_keeps_tasks :
      (m : TaskManager) (actions : List Action) (i : ℕ) (r : TaskRecord)
      → IsKeyed m
      → find m i ≡ some r
      → Stays i r (run tools m actions) ⊎ MayBeTrimmed m actions i
  unfolding run
  run_keeps_tasks m [] i r k e = inl (r, e, IsLater-refl r)
  run_keeps_tasks m (a ∷ rest) i r k e = elim (step_Stays m a i r k e) [
    | inl (r', found, later_one) ↦
        elim (run_keeps_tasks (act tools m a) rest i r' ((act-Keeps tools m a).keyed k) found) [
          | inl (r'', found', l) ↦ inl (r'', found', IsLater-trans later_one l)
          | inr (before, prompt, steps, confirmed, after, x, split, then_found, closed) ↦ inr (
            a ∷ before,
            prompt,
            steps,
            confirmed,
            after,
            x,
            ap (λ xs. a ∷ xs) split,
            then_found,
            closed,
          )
        ]
    | inr (prompt, steps, confirmed, same, closed) ↦
        inr ([], prompt, steps, confirmed, rest, r, ap (λ x. x ∷ rest) same, e, closed)
  ]
