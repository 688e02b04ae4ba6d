-- ===== src/Agent/Planner/Bounds.antt =====
-- How many steps a plan of ron/agent/planner.py has, and which tools they name.
use ron_personal_assistant.Prelude.{
  suc, ◌≤◌, ◌<◌, String, ◌≡◌, ◌⊎◌, refl, ap, Bool, true, false, Option, none, some, List, [], ◌∷◌,
  All, arith, ltb, length, mem_text, inl, inr, Bool-cases,
}
use ron_personal_assistant.Agent.Models.{Arguments, AgentPlan}
use ron_personal_assistant.Agent.Planner.{
  AgentTaskPlan, RecentAction, Answer, unavailable, no_object, no_tool, not_text, named, Texts,
  Moment, max_plan_steps, allowed_plan, model_plan, deterministic_plan, with_tool, step_first,
  all_steps, mapped, single, or_model, build_plan_steps,
}

module _ (texts : Texts) (moment : Moment) (recent : List RecentAction) where
  -- A step with a tool, which the rules made of a text, or which the registry has.
  abbrev pub IsFounded : AgentPlan → Type 0
  IsFounded step =
      (tool : String) × (step.tool_name ≡ some tool)
      × (((segment : String) × (deterministic_plan texts recent segment ≡ some step))
          ⊎ (mem_text tool moment.names ≡ true))

  -- All segments were mapped, each to its own step.
  abbrev pub Maps : List String → Option (List AgentPlan) → Type 0
  Maps segments none = Unit
  Maps segments (some steps) = (length steps ≡ length segments) × All IsFounded steps

  abbrev Steps : Option AgentPlan → Type 0
  Steps none = Unit
  Steps (some step) = IsFounded step

  with_tool-Steps :
      (segment : String) (o : Option AgentPlan)
      → deterministic_plan texts recent segment ≡ o
      → Steps (with_tool o)
  with_tool-Steps segment none e = tt
  with_tool-Steps segment (some plan) e = go plan.tool_name refl
    where
      go :
          (tool : Option String)
          → plan.tool_name ≡ tool
          → Steps (elim tool as (λ x. Option AgentPlan) [ none ↦ none | some t ↦ some plan ])
      go none f = tt
      go (some t) f = (t, f, inl (segment, e))

  step_first-Maps :
      (segment : String) (segments : List String) (o : Option AgentPlan)
      (rest : Option (List AgentPlan))
      → Steps o
      → Maps segments rest
      → Maps (segment ∷ segments) (step_first o rest)
  step_first-Maps segment segments none rest h k = tt
  step_first-Maps segment segments (some step) none h k = tt
  step_first-Maps segment segments (some step) (some steps) h (same, founded) =
      (ap suc same, (h, founded))

  all_steps-Maps : (segments : List String) → Maps segments (all_steps texts recent segments)
  unfolding all_steps
  all_steps-Maps [] = (refl, tt)
  all_steps-Maps (segment ∷ segments) =
      step_first-Maps segment segments _ _
        (with_tool-Steps segment (deterministic_plan texts recent segment) refl)
        (all_steps-Maps segments)

  -- At most four steps, all founded; and either one for each of several segments, or none at all.
  abbrev pub IsSound : List String → AgentTaskPlan → Type 0
  IsSound segments plan =
      (length plan.steps ≤ 4)
      × All IsFounded plan.steps
      × (1 < length segments → (plan.steps ≡ []) ⊎ (length plan.steps ≡ length segments))

  mapped-IsSound :
      (segments : List String) (o : Option (List AgentPlan))
      → length segments ≤ 4
      → Maps segments o
      → IsSound segments (mapped o)
  mapped-IsSound segments none few h = (omega arith, tt, λ several. inl refl)
  mapped-IsSound segments (some steps) few (same, founded) =
      (omega (arith, few, same), founded, λ several. inr same)

  allowed-Steps :
      (known : Bool) (tool : String) (arguments : Option Arguments)
      → mem_text tool moment.names ≡ known
      → Steps (with_tool (some (allowed_plan known tool arguments)))
  allowed-Steps false tool arguments e = tt
  allowed-Steps true tool none e = tt
  allowed-Steps true tool (some arguments) e = (tool, refl, inr e)

  model-Steps : (answer : Answer) → Steps (with_tool (some (model_plan moment.names answer)))
  unfolding model_plan
  model-Steps unavailable = tt
  model-Steps no_object = tt
  model-Steps no_tool = tt
  model-Steps not_text = tt
  model-Steps (named tool arguments) =
      allowed-Steps (mem_text tool moment.names) tool arguments refl

  single-IsSound :
      (segments : List String) (plan : AgentPlan)
      → length segments ≤ 1
      → Steps (with_tool (some plan))
      → IsSound segments (single plan)
  single-IsSound segments plan few h = go (with_tool (some plan)) h
    where
      go :
          (o : Option AgentPlan)
          → Steps o
          → IsSound segments (record {
            steps = elim o as (λ x. List AgentPlan) [ none ↦ [] | some step ↦ step ∷ [] ];
            reason = plan.reason;
          })
      go none k = (omega arith, tt, λ several. inl refl)
      go (some step) k = (omega arith, (k, tt), λ several. absurd (omega (arith, few, several)))

  or_model-Steps :
      (segment : String) (answer : Answer) (o : Option AgentPlan)
      → deterministic_plan texts recent segment ≡ o
      → Steps (with_tool (some (or_model (model_plan moment.names answer) o)))
  or_model-Steps segment answer none e = model-Steps answer
  or_model-Steps segment answer (some plan) e = with_tool-Steps segment (some plan) e

  -- Every plan has at most four steps, each with a tool, which the rules made of a text or which the
  -- registry has; and a prompt of several segments gets a step for each of them, or none at all,
  -- whatever the model answers.
  pub build_plan_steps-IsSound :
      (prompt : String)
      → let plan = build_plan_steps texts moment recent prompt in
        (length plan.steps ≤ 4)
        × All IsFounded plan.steps
        × (1 < length (texts.segments prompt)
            → (plan.steps ≡ []) ⊎ (length plan.steps ≡ length (texts.segments prompt)))
  unfolding build_plan_steps
  build_plan_steps-IsSound prompt =
      let segments = texts.segments prompt in
      elim (Bool-cases (ltb max_plan_steps (length segments))) [
        | inl many ↦ rw many (omega arith, tt, λ several. inl refl)
        | inr few ↦ elim (Bool-cases (ltb 1 (length segments))) [
          | inl several ↦
              rw (few, several)
                (mapped-IsSound segments (all_steps texts recent segments) (ground arith)
                  (all_steps-Maps segments))
          | inr one ↦
              rw (few, one)
                (single-IsSound segments _ (ground arith) (
                  or_model-Steps prompt (moment.answer recent prompt)
                    (deterministic_plan texts recent prompt) refl))
        ]
      ]
