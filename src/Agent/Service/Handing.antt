-- ===== src/Agent/Service/Handing.antt =====
-- `_execute_plans` of ron/agent/service.py: it hands plans over whole, once, and after their preflight.
use ron_personal_assistant.Prelude.{
  ℕ, ◌+◌, String, ◌≡◌, ◌⊎◌, ◌≢◌, refl, inl, inr, Bool, true, false, ◌||◌, not, Option, none, some,
  List, [], ◌∷◌, ◌++◌, arith, ltb, if◌then◌else◌, length, strip, All, Option-cases, Result, ok, err,
}
use ron_personal_assistant.Prelude.Dict.{text_key}
use ron_personal_assistant.Agent.Models.{AgentPlan, ToolResult, AgentTaskSnapshot}
use ron_personal_assistant.Agent.Registry.{is_ready, preflight}
use ron_personal_assistant.Agent.Tasks.{TaskManager, TaskError, submit}
use ron_personal_assistant.Agent.Service.{
  AgentService, Surroundings, Preflighted, all_ready, crashed, asks, stops_at, is_asking,
  preflight_plans, execute_plans, proceed, queued_task, run_now, hand, first_plan,
  runs_in_background,
}

module _ (around : Surroundings) where
  -- The step has a tool, and the registry's preflight is READY.
  abbrev pub IsReady : Bool → AgentPlan → Type 0
  IsReady confirmed plan =
      (name : String) × (plan.tool_name ≡ some name)
      × (is_ready (preflight around.registry name plan.arguments confirmed around.now).status
          ≡ true)

  gate :
      (checked : ToolResult) (index : ℕ) (rest : Preflighted)
      → (if is_asking checked.status
          then asks checked
          else if not (is_ready checked.status)
          then stops_at index checked
          else rest)
        ≡ all_ready
      → (is_ready checked.status ≡ true) × (rest ≡ all_ready)
  gate checked index rest h = ground arith

  ne_ready : crashed ≢ all_ready
  ne_ready h = ground arith

  preflight_plans-IsReady :
      (confirmed : Bool) (index : ℕ) (plans : List AgentPlan)
      → preflight_plans around confirmed index plans ≡ all_ready
      → All (IsReady confirmed) plans
  unfolding preflight_plans
  preflight_plans-IsReady confirmed index [] h = tt
  preflight_plans-IsReady confirmed index (plan ∷ plans) h = elim (Option-cases plan.tool_name) [
    | inl none_given ↦ absurd (ne_ready (rw (none_given, preflight_plans) at h))
    | inr (name, n) ↦
        let (ready, rest) = gate _ _ _ (rw (n, preflight_plans) at h) in
        ((name, n, ready), preflight_plans-IsReady confirmed (index + 1) plans rest)
  ]

  abbrev pub Handing : AgentService → List AgentPlan → Bool → AgentService → Type 0
  Handing s plans confirmed s' =
      (s'.handed ≡ s.handed)
      ⊎ ((s'.handed ≡ s.handed ++ record { plans = plans; confirmed = confirmed } ∷ [])
          × All (IsReady confirmed) plans
          × (s'.pending_confirmation ≡ s.pending_confirmation))

  queued_task-same :
      (s : AgentService) (plans : List AgentPlan)
      (r : Result TaskError AgentTaskSnapshot × TaskManager)
      → ((queued_task around s plans r).1.handed ≡ s.handed)
        × ((queued_task around s plans r).1.pending_confirmation ≡ s.pending_confirmation)
  unfolding queued_task
  queued_task-same s plans (err e, tasks) = (refl, refl)
  queued_task-same s plans (ok t, tasks) = (refl, refl)

  run_now-same :
      (s : AgentService) (plans : List AgentPlan) (confirmed : Bool) (o : Option String)
      → ((run_now around s plans confirmed o).1.handed ≡ s.handed)
        × ((run_now around s plans confirmed o).1.pending_confirmation ≡ s.pending_confirmation)
  unfolding run_now
  run_now-same s plans confirmed none = (refl, refl)
  run_now-same s plans confirmed (some name) = ground arith

  proceed-Handing :
      (s : AgentService) (prompt : String) (plans : List AgentPlan) (confirmed : Bool)
      (p : Preflighted)
      → preflight_plans around confirmed 1 plans ≡ p
      → Handing s plans confirmed (proceed around s prompt plans confirmed p).1
  unfolding proceed
  proceed-Handing s prompt plans confirmed crashed e = inl refl
  proceed-Handing s prompt plans confirmed (asks _) e = inl refl
  proceed-Handing s prompt plans confirmed (stops_at _ _) e = inl refl
  proceed-Handing s prompt plans confirmed all_ready e =
      go (ltb 1 (length plans) || runs_in_background around plans)
    where
      given : AgentService
      given = hand around s plans confirmed

      ready : All (IsReady confirmed) plans
      ready = preflight_plans-IsReady confirmed 1 plans e

      go :
          (b : Bool)
          → Handing s plans confirmed
              (if b
                then queued_task around
                    (hand around s plans confirmed)
                    plans
                    (submit s.tasks (strip prompt) plans confirmed)
                else run_now around
                    (hand around s plans confirmed)
                    plans
                    confirmed
                    (first_plan plans).tool_name).1
      go true =
          let same =
            queued_task-same (hand around s plans confirmed) plans
              (submit s.tasks (strip prompt) plans confirmed) in
          inr (same.0, ready, same.1)
      go false =
          let same =
            run_now-same (hand around s plans confirmed) plans confirmed
              (first_plan plans).tool_name in
          inr (same.0, ready, same.1)

  pub execute_plans-Handing :
      (s : AgentService) (prompt : String) (plans : List AgentPlan) (confirmed : Bool)
      → Handing s plans confirmed (execute_plans around s prompt plans confirmed).1
  unfolding execute_plans
  execute_plans-Handing s prompt plans confirmed = proceed-Handing s prompt plans confirmed _ refl
