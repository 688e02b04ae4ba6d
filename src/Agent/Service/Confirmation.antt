-- ===== src/Agent/Service/Confirmation.antt =====
-- What the dialogue of ron/agent/service.py lets through: plans run as confirmed only by a "yes" in time.
use ron_personal_assistant.Prelude.{
  ℕ, ◌<◌, String, ◌≡◌, ◌⊎◌, refl, ap, ◌∙◌, inl, inr, Bool, true, false, Option, none, some, List,
  [], ◌∷◌, ◌++◌, arith, leb, if◌then◌else◌, strip, All, Result, ok, err,
}
use ron_personal_assistant.Prelude.Dict.{text_key}
use ron_personal_assistant.Prelude.Int.{ℤ}
use ron_personal_assistant.Agent.Models.{AgentPlan}
use ron_personal_assistant.Agent.Service.{
  PendingConfirmation, PendingClarification, AgentService, AgentResponse, ServiceError,
  Surroundings, Control, cancels_task, answers, expire_pending, execute_plans, unless_expired,
}
use ron_personal_assistant.Agent.Service.Dialogue.{
  chosen_plan, choice_prompt, handle_pending, clarify, selected, close_resolved, plan_anew,
  repeat_or_plan, repeat_plans, converse, respond, controlled,
}
use ron_personal_assistant.Agent.Service.Handing.{IsReady, Handing, execute_plans-Handing}

module _ (around : Surroundings) where
  -- What a prompt may hand over: nothing; plans that need no confirmation; or the plans of the pending
  -- question, as confirmed, on a "yes".
  abbrev Lets : AgentService → String → AgentService → Type 0
  Lets s clean s' =
      (s'.handed ≡ s.handed)
      ⊎ (((plans : List AgentPlan) × (s'.handed
              ≡ s.handed ++ record { plans = plans; confirmed = false } ∷ [])
            × All (IsReady around false) plans)
          ⊎ ((c : PendingConfirmation) × (s.pending_confirmation ≡ some c)
              × (around.is_yes clean ≡ true)
              × (s'.handed ≡ s.handed ++ record { plans = c.plans; confirmed = true } ∷ [])
              × All (IsReady around true) c.plans
              × (s'.pending_confirmation ≡ none)))

  unconfirmed :
      (s t : AgentService) (clean : String) (plans : List AgentPlan) (s' : AgentService)
      → t.handed ≡ s.handed
      → Handing around t plans false s'
      → Lets s clean s'
  unconfirmed s t clean plans s' same (inl nothing) = inl (nothing ∙ same)
  unconfirmed s t clean plans s' same (inr (given, ready, _)) = inr (
      inl (
        plans,
        given ∙ ap (λ h. h ++ record { plans = plans; confirmed = false } ∷ []) same,
        ready,
      ))

  close_resolved-Handing :
      (t : AgentService) (plans : List AgentPlan) (task_id : ℕ)
      (r : Result ServiceError AgentResponse × AgentService)
      → Handing around t plans false r.1
      → Handing around t plans false (close_resolved task_id r).1
  unfolding close_resolved
  close_resolved-Handing t plans task_id (err e, s) h = h
  close_resolved-Handing t plans task_id (ok response, s) h = h

  selected-Lets :
      (s : AgentService) (clean : String) (c : PendingClarification) (choice : ℤ)
      → Lets s clean (selected around s c choice).1
  unfolding selected
  selected-Lets s clean c choice =
      let t = record s { pending_clarification = none } in
      let plans = chosen_plan c choice ∷ [] in
      let r = execute_plans around t (choice_prompt c choice) plans false in
      unconfirmed s t clean plans (close_resolved c.task_id r).1 refl (
        close_resolved-Handing t plans c.task_id r
          (execute_plans-Handing around t (choice_prompt c choice) plans false))

  -- A result, if there is one, whose state the prompt lets through.
  abbrev LetsAny :
      AgentService → String → Option (Result ServiceError AgentResponse × AgentService) → Type 0
  LetsAny s clean none = Unit
  LetsAny s clean (some r) = Lets s clean r.1

  LetsAny-if :
      (s : AgentService) (clean : String)
      (x y : Option (Result ServiceError AgentResponse × AgentService)) (b : Bool)
      → (b ≡ true → LetsAny s clean x)
      → (b ≡ false → LetsAny s clean y)
      → LetsAny s clean (if b then x else y)
  LetsAny-if s clean x y true h k = h refl
  LetsAny-if s clean x y false h k = k refl

  clarify-Lets :
      (s : AgentService) (clean : String) (o : Option PendingClarification)
      → LetsAny s clean (clarify around s clean o)
  unfolding clarify
  clarify-Lets s clean none = tt
  clarify-Lets s clean (some c) =
      LetsAny-if s clean _ _ (around.is_no clean) (λ refusal. inl refl)
        (λ other. go (around.choice clean c))
    where
      go :
          (choice : Option ℤ)
          → LetsAny s clean
              (elim choice [ none ↦ none | some choice ↦ some (selected around s c choice) ])
      go none = tt
      go (some choice) = selected-Lets s clean c choice

  handle_pending-Lets :
      (s : AgentService) (prompt : String) (o : Option PendingConfirmation)
      → s.pending_confirmation ≡ o
      → LetsAny s (strip prompt) (handle_pending around s prompt o)
  unfolding handle_pending
  handle_pending-Lets s prompt none e = clarify-Lets s (strip prompt) s.pending_clarification
  handle_pending-Lets s prompt (some c) e =
      LetsAny-if s (strip prompt) _ _ (around.is_no (strip prompt)) (λ refusal. inl refl)
        (λ other.
          LetsAny-if s (strip prompt) _ _ (around.is_yes (strip prompt))
            (λ agreed.
              confirmed_now
                (execute_plans around (record s { pending_confirmation = none }) c.prompt c.plans
                  true).1
                agreed
                (execute_plans-Handing around (record s { pending_confirmation = none }) c.prompt
                  c.plans true))
            (λ neither. clarify-Lets s (strip prompt) s.pending_clarification))
    where
      confirmed_now :
          (s' : AgentService)
          → around.is_yes (strip prompt) ≡ true
          → Handing around (record s { pending_confirmation = none }) c.plans true s'
          → Lets s (strip prompt) s'
      confirmed_now s' agreed (inl nothing) = inl nothing
      confirmed_now s' agreed (inr (given, ready, settled)) =
          inr (inr (c, e, agreed, given, ready, settled))

  plainly :
      (s : AgentService) (prompt : String) (plans : List AgentPlan)
      → Lets s (strip prompt) (execute_plans around s prompt plans false).1
  plainly s prompt plans =
      unconfirmed s s (strip prompt) plans (execute_plans around s prompt plans false).1 refl
        (execute_plans-Handing around s prompt plans false)

  repeat_or_plan-Lets :
      (s : AgentService) (prompt : String) (o : Option (List AgentPlan))
      → Lets s (strip prompt) (repeat_or_plan around s prompt o).1
  unfolding repeat_or_plan
  repeat_or_plan-Lets s prompt none = go (around.plan_steps prompt)
    where
      go : (r : List AgentPlan × String) → Lets s (strip prompt) (plan_anew around s prompt r).1
      go ([], reason) = unfold plan_anew in inl refl
      go (plan ∷ plans, reason) = unfold plan_anew in plainly s prompt (plan ∷ plans)
  repeat_or_plan-Lets s prompt (some []) = inl refl
  repeat_or_plan-Lets s prompt (some (plan ∷ plans)) = plainly s prompt (plan ∷ plans)

  converse-Lets :
      (s : AgentService) (prompt : String) → Lets s (strip prompt) (converse around s prompt).1
  unfolding converse
  converse-Lets s prompt =
      go (handle_pending around s prompt s.pending_confirmation)
        (handle_pending-Lets s prompt s.pending_confirmation refl)
    where
      go :
          (o : Option (Result ServiceError AgentResponse × AgentService))
          → LetsAny s (strip prompt) o
          → Lets s
              (strip prompt)
              (elim o as (λ x. Result ServiceError AgentResponse × AgentService) [
                | some handled ↦ handled
                | none ↦ repeat_or_plan around s prompt (repeat_plans around s prompt)
              ]).1
      go none h = repeat_or_plan-Lets s prompt (repeat_plans around s prompt)
      go (some handled) h = h

  -- A question that is not expired.
  unexpired :
      (now : ℕ) (o : Option PendingConfirmation) (c : PendingConfirmation)
      → unless_expired now o ≡ some c
      → (o ≡ some c) × (now < c.expires_at)
  unexpired now none c h = ground arith
  unexpired now (some x) c h =
      let early : leb x.expires_at now ≡ false = ground (arith, h) in
      let same : x ≡ c = ground (arith, h, early) in
      (ap some same, ground (arith, ap (λ (y : PendingConfirmation). y.expires_at) same, early))

  -- What `respond-Confirms` states.
  abbrev pub Confirms : AgentService → String → AgentService → Type 0
  Confirms s prompt s' =
      (s'.handed ≡ s.handed)
      ⊎ (((plans : List AgentPlan) × (s'.handed
              ≡ s.handed ++ record { plans = plans; confirmed = false } ∷ [])
            × All (IsReady around false) plans)
          ⊎ ((c : PendingConfirmation) × (s.pending_confirmation ≡ some c)
              × (around.is_yes (strip prompt) ≡ true)
              × (around.now < c.expires_at)
              × (s'.handed ≡ s.handed ++ record { plans = c.plans; confirmed = true } ∷ [])
              × All (IsReady around true) c.plans
              × (s'.pending_confirmation ≡ none)))

  from_unexpired :
      (s : AgentService) (prompt : String) (s' : AgentService)
      → Lets (expire_pending s around.now) (strip prompt) s'
      → Confirms s prompt s'
  unfolding expire_pending
  from_unexpired s prompt s' (inl nothing) = inl nothing
  from_unexpired s prompt s' (inr (inl plain)) = inr (inl plain)
  from_unexpired s prompt s' (inr (inr (c, e, agreed, given, ready, settled))) =
      let (asked, in_time) = unexpired around.now s.pending_confirmation c e in
      inr (inr (c, asked, agreed, in_time, given, ready, settled))

  -- One prompt hands plans over at most once. It hands them over as confirmed only if it is a "yes",
  -- the question about exactly these plans was pending and its time had not come; the question is
  -- then settled. And whatever it hands over, each step passed the registry's preflight before.
  pub respond-Confirms :
      (s : AgentService) (prompt : String) → Confirms s prompt (respond around s prompt).1
  unfolding respond
  respond-Confirms s prompt = go (around.control prompt)
    where
      go :
          (o : Option Control)
          → let t = expire_pending s around.now in
            Confirms s prompt
              (elim o as (λ x. Result ServiceError AgentResponse × AgentService) [
                | some control ↦ (ok (controlled t control).0, (controlled t control).1)
                | none ↦ converse around t prompt
              ]).1
      go none =
          from_unexpired s prompt (converse around (expire_pending s around.now) prompt).1
            (converse-Lets (expire_pending s around.now) prompt)
      go (some (cancels_task task_id)) = unfold expire_pending in inl refl
      go (some (answers text reason)) = unfold expire_pending in inl refl
