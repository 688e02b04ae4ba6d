-- ===== src/Agent/Service/Claims.antt =====
-- `claims_interaction` of ron/agent/service.py against what `respond` does with the same prompt.
use ron_personal_assistant.Prelude.{
  String, ◌≡◌, refl, ap, ◌∙◌, Bool, true, false, ◌||◌, Option, none, some, arith, strip,
  if◌then◌else◌, Result,
}
use ron_personal_assistant.Prelude.Int.{ℤ}
use ron_personal_assistant.Agent.Service.{
  PendingConfirmation, PendingClarification, AgentService, AgentResponse, ServiceError,
  Surroundings, expire_pending,
}
use ron_personal_assistant.Agent.Service.Dialogue.{
  handle_pending, clarify, selected, declined, claims, claims_interaction,
}

abbrev pub is_some : Option (Result ServiceError AgentResponse × AgentService) → Bool
is_some none = false
is_some (some _) = true

module _ (around : Surroundings) where
  some_if :
      (r : Result ServiceError AgentResponse × AgentService)
      (y : Option (Result ServiceError AgentResponse × AgentService)) (b : Bool)
      → is_some (if b then some r else y) ≡ (b || is_some y)
  some_if r y true = refl
  some_if r y false = refl

  clarify-claims :
      (t : AgentService) (clean : String) (o : Option PendingClarification)
      → is_some (clarify around t clean o) ≡ claims around clean none o
  unfolding clarify
  clarify-claims t clean none = refl
  clarify-claims t clean (some c) =
      some_if (declined around t c) _ (around.is_no clean) ∙ go (around.choice clean c)
    where
      go :
          (choice : Option ℤ)
          → (around.is_no clean
              || is_some
                  (elim choice [ none ↦ none | some choice ↦ some (selected around t c choice) ]))
            ≡ (elim choice [ none ↦ false | some _ ↦ true ] || around.is_no clean)
      go none = ground arith
      go (some choice) = ground arith

  settles :
      (t : AgentService) (prompt : String) (a : Option PendingConfirmation)
      → is_some (handle_pending around t prompt a) ≡ (
          claims around (strip prompt) a t.pending_clarification
          || claims around (strip prompt) none t.pending_clarification)
  unfolding handle_pending
  settles t prompt none = clarify-claims t (strip prompt) t.pending_clarification ∙ ground arith
  settles t prompt (some c) =
      some_if _ _ (around.is_no (strip prompt))
      ∙ (ap (λ b. around.is_no (strip prompt) || b)
            (some_if _ _ (around.is_yes (strip prompt))
              ∙ ap (λ b. around.is_yes (strip prompt) || b)
                  (clarify-claims t (strip prompt) t.pending_clarification))
          ∙ ground arith)

  -- The pending questions settle a prompt exactly if the service claims it, or would claim it for its
  -- pending clarification alone: with both kinds of question pending, an answer to the clarification
  -- is settled though it is not claimed.
  pub claims_interaction_lem :
      (s : AgentService) (prompt : String)
      → let t = expire_pending s around.now in
        is_some (handle_pending around t prompt t.pending_confirmation) ≡ (
          claims_interaction around s prompt
          || claims around (strip prompt) none t.pending_clarification)
  unfolding claims_interaction
  claims_interaction_lem s prompt =
      let t = expire_pending s around.now in settles t prompt t.pending_confirmation
