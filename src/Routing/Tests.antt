-- ===== src/Routing/Tests.antt =====
-- A prompt that only the classifier's model sends to the agent: tests, and the witnesses of the theorems
-- on ron/routing.py.
use ron_personal_assistant.Prelude.{
  count, ◌≡◌, ◌⊎◌, ◌≤◌, ◌<◌, refl, true, false, none, [], ◌∷◌, strip, is_space, is_truthy, ok, err,
}
use ron_personal_assistant.Routing.Rules.{explanation_rules}
use ron_personal_assistant.Routing.{
  agent, RoutingDecision, local_model, RoutingError, decision, labelled, raised, client_failed,
  Readings, PromptRouter, first_match, by_rules, resolve, ambiguous_or_chat, route,
}
use ron_personal_assistant.Routing.Deciding.{IsAsked, route_decides, agent_needs_reason}

abbrev pub read : Readings
read = record {
  search = λ pattern text. false;
  route_text = λ text. text;
  words = λ text. "please" ∷ [];
  ambiguous = λ text. true;
  sensitive = λ text. true;
  classifier = λ text. labelled agent;
  action_resolver = none;
}

abbrev pub router : PromptRouter
router = record { max_prompt_characters = 6000 }

abbrev classified_agent : RoutingDecision
classified_agent = record {
  destination = agent;
  confidence = 82;
  reason = "The configured AI classifier resolved an ambiguous request.";
  source = local_model;
  requires_confirmation = true;
}

routed : route read router " please send it " ≡ ok classified_agent
unfolding route decision by_rules first_match resolve ambiguous_or_chat strip is_space
routed = refl

agent_needs_reason_example :
    (first_match read explanation_rules (strip " please send it ") ≡ none)
    × IsAsked read (strip " please send it ") (strip " please send it ")
agent_needs_reason_example =
    agent_needs_reason read router " please send it " classified_agent routed refl

route_decides_example :
    (is_truthy (strip "hi") ≡ true
      → count (strip "hi") ≤ 6000
      → route read router "hi" ≡ by_rules read (strip "hi") (strip "hi"))
    × ((error : RoutingError)
        → route read router "hi" ≡ err error
        → (is_truthy (strip "hi") ≡ false)
          ⊎ (6000 < count (strip "hi"))
          ⊎ ((read.ambiguous (strip "hi") ≡ true) × (read.classifier (strip "hi") ≡ raised)))
route_decides_example = route_decides read router "hi"

-- The client refuses a prompt that is within the limit of the router.
abbrev refusing : Readings
refusing = record read { classifier = λ text. raised }

route_raises : route refusing router "please send it" ≡ err client_failed
unfolding route decision by_rules first_match resolve ambiguous_or_chat strip is_space
route_raises = refl
