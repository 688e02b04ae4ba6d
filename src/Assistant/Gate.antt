-- ===== src/Assistant/Gate.antt =====
-- What may make the agent act, by ron/assistant.py and ron/routing.py together.
use ron_personal_assistant.Prelude.{
  String, ◌≡◌, ◌⊎◌, inl, inr, refl, sym, ap, ◌∙◌, Bool, true, false, Option, none, some, List, [],
  if◌then◌else◌, strip, Result, ok, err,
}
use ron_personal_assistant.Chat.History.{ConversationHistory, HistoryError, record_turn}
use ron_personal_assistant.Chat.Turn.{ChatError, Effect, respond as chat_respond}
use ron_personal_assistant.Agent.Service.{
  Handed, AgentService, AgentResponse, ServiceError, expire_pending,
}
use ron_personal_assistant.Agent.Service.Dialogue.{
  claims_interaction as agent_claims, respond as agent_respond,
}
use ron_personal_assistant.Memory.Service.{MemoryError}
use ron_personal_assistant.Memory.Dialogue.{MemoryIntelligence, handle}
use ron_personal_assistant.Routing.Rules.{explanation_rules}
use ron_personal_assistant.Routing.{
  RouteDestination, chat, agent, RoutingDecision, RoutingError, first_match, route,
}
use ron_personal_assistant.Routing.Deciding.{IsAsked, agent_needs_reason}
use ron_personal_assistant.Assistant.{
  RonAssistant, Given, AssistantResponse, Turn, recorded, settled, consider_user_memory, with_route,
  routed, decide_agent, memory_claims_it, decide, memory_turn, chatted, then_learned, finish_agent,
  is_task, returned, answered, unless_cancelled, agent_turn, dispatched, remembered, considered,
  respond, claimed_by_agent, claimed_by_memory,
}

-- The plans that the agent has handed over so far.
abbrev pub handed_by : Option AgentService → List Handed
handed_by none = []
handed_by (some a) = a.handed

module _ (given : Given) (prompt : String) where
  -- The agent waits for this answer, or the router has a reason to ask the agent.
  abbrev pub Wanted : Option AgentService → Type 0
  Wanted o =
      ((a : AgentService) × (o ≡ some a) × (agent_claims given.surroundings a prompt ≡ true))
      ⊎ (let t = given.readings.route_text (strip prompt) in
          (first_match given.readings explanation_rules t ≡ none)
          × IsAsked given.readings (strip prompt) t)

  abbrev Decides : RonAssistant → Result RoutingError RoutingDecision × RonAssistant → Type 0
  Decides s (err _, s') = handed_by s'.agent ≡ handed_by s.agent
  Decides s (ok d, s') =
      (handed_by s'.agent ≡ handed_by s.agent)
      × (s'.last_route ≡ some d)
      × (d.destination ≡ agent → Wanted s.agent)

  routed-Decides :
      (s s' : RonAssistant) (x : Result RoutingError RoutingDecision)
      → handed_by s'.agent ≡ handed_by s.agent
      → route given.readings given.router prompt ≡ x
      → Decides s (routed given s' x)
  routed-Decides s s' (err _) same e = same
  routed-Decides s s' (ok d) same e =
      (same, refl, λ k. inr (agent_needs_reason given.readings given.router prompt d e k))

  decide_agent-Decides :
      (s : RonAssistant) (o : Option AgentService)
      → s.agent ≡ o
      → Decides s (decide_agent given s prompt o)
  unfolding decide_agent expire_pending
  decide_agent-Decides s none e =
      routed-Decides s s (route given.readings given.router prompt) refl refl
  decide_agent-Decides s (some a) e = go (agent_claims given.surroundings a prompt) refl
    where
      s' : RonAssistant
      s' = record s { agent = some (expire_pending a given.surroundings.now) }

      same : handed_by s'.agent ≡ handed_by s.agent
      same = ap handed_by (sym e)

      go :
          (b : Bool)
          → agent_claims given.surroundings a prompt ≡ b
          → Decides s (
              if b
              then with_route given s' claimed_by_agent
              else routed given s' (route given.readings given.router prompt))
      go true claims = (same, refl, λ k. inl (a, e, claims))
      go false claims = routed-Decides s s' (route given.readings given.router prompt) same refl

  decide-Decides : (s : RonAssistant) → Decides s (decide given s prompt)
  unfolding decide
  decide-Decides s = go (memory_claims_it given s.memory prompt)
    where
      go :
          (b : Bool)
          → Decides s (
              if b
              then with_route given s claimed_by_memory
              else decide_agent given s prompt s.agent)
      go true = (refl, refl, λ k. cc)
      go false = decide_agent-Decides s s.agent refl

  module _ (listening spoken : Bool) where
    -- A turn in which the agent was wanted if it has handed over plans.
    abbrev Acts : RonAssistant → Turn → Type 0
    Acts s (result, s', events) =
        (handed_by s'.agent ≡ handed_by s.agent)
        ⊎ ((d : RoutingDecision) × (s'.last_route ≡ some d)
            × (d.destination ≡ agent)
            × Wanted s.agent)

    settled_same :
        (s : RonAssistant) (response : AssistantResponse)
        (x : Result HistoryError ConversationHistory)
        → let s' = (settled s response (recorded s x)).1 in
          (s'.agent ≡ s.agent) × (s'.last_route ≡ s.last_route)
    settled_same s response (ok h) = (refl, refl)
    settled_same s response (err e) = (refl, refl)

    finish_route :
        (s : RonAssistant) (d : RoutingDecision) (message : String) (o : Option AgentResponse)
        (submitted : Bool)
        → (finish_agent given prompt listening spoken s d message o submitted).1.last_route
          ≡ s.last_route
    unfolding finish_agent consider_user_memory
    finish_route s d message o true = refl
    finish_route s d message o false = go (record_turn s.history (strip prompt) message)
      where
        go :
            (x : Result HistoryError ConversationHistory)
            → (then_learned given prompt listening spoken (
                settled s
                  (record { text = message; route = d; agent = o })
                  (recorded s x))).1.last_route
              ≡ s.last_route
        go (ok h) = refl
        go (err e) = refl

    returned_route :
        (s : RonAssistant) (d : RoutingDecision) (response : AgentResponse) (cancelled : Bool)
        → (returned given prompt listening spoken s d response cancelled).1.last_route
          ≡ s.last_route
    unfolding returned
    returned_route s d response true = refl
    returned_route s d response false =
        finish_route s d response.text (some response) (is_task response)

    answered_route :
        (s : RonAssistant) (d : RoutingDecision)
        (x : Result ServiceError AgentResponse × AgentService)
        → (answered given prompt listening spoken s d x).1.last_route ≡ s.last_route
    answered_route s d (err e, a) = refl
    answered_route s d (ok response, a) =
        returned_route (record s { agent = some a }) d response given.cancelled_after

    agent_route :
        (s : RonAssistant) (d : RoutingDecision) (o : Option AgentService)
        → (agent_turn given prompt listening spoken s d o).1.last_route ≡ s.last_route
    unfolding agent_turn
    agent_route s d none = finish_route s d _ none false
    agent_route s d (some a) = answered_route s d (agent_respond given.surroundings a prompt)

    memory_Acts :
        (s : RonAssistant) (m : MemoryIntelligence) (reply : String)
        → Acts s (memory_turn given prompt listening spoken s m reply)
    unfolding memory_turn
    memory_Acts s m reply =
        inl (ap handed_by (settled_same _ _ (record_turn s.history (strip prompt) reply)).0)

    chatted-Acts :
        (s s' : RonAssistant) (d : RoutingDecision)
        (x : Result ChatError (String × ConversationHistory) × List Effect)
        → handed_by s'.agent ≡ handed_by s.agent
        → Acts s (chatted given prompt listening spoken s' d x)
    unfolding consider_user_memory
    chatted-Acts s s' d (err e, effects) same = inl same
    chatted-Acts s s' d (ok (text, h), effects) same = inl same

    dispatched-Acts :
        (s : RonAssistant) (x : Result RoutingError RoutingDecision × RonAssistant)
        → Decides s x
        → Acts s (dispatched given prompt listening spoken x)
    dispatched-Acts s (err _, s') h = inl h
    dispatched-Acts s (ok d, s') (same, last, why) = go d.destination refl
      where
        go :
            (destination : RouteDestination)
            → d.destination ≡ destination
            → Acts s (elim destination as (λ x. Turn) [
              | chat ↦ chatted given prompt listening spoken s' d (
                  chat_respond given.settings given.provider given.stream_chat s'.history prompt
                    listening spoken)
              | agent ↦ agent_turn given prompt listening spoken s' d s'.agent
            ])
        go chat e = chatted-Acts s s' d _ same
        go agent e = inr (d, agent_route s' d s'.agent ∙ last, e, why e)

    remembered-Acts :
        (s : RonAssistant) (x : Result MemoryError (Option String) × MemoryIntelligence)
        → Acts s (remembered given prompt listening spoken s x)
    remembered-Acts s (err e, m) = inl refl
    remembered-Acts s (ok (some reply), m) = memory_Acts s m reply
    remembered-Acts s (ok none, m) =
        dispatched-Acts s _ (decide-Decides (record s { memory = some m }))

    considered-Acts :
        (s : RonAssistant) (o : Option MemoryIntelligence)
        → Acts s (considered given prompt listening spoken s o)
    considered-Acts s none = dispatched-Acts s _ (decide-Decides s)
    considered-Acts s (some m) = remembered-Acts s (handle given.around given.patterns m prompt)

    cancelled_Acts :
        (s : RonAssistant) (cancelled : Bool)
        → Acts s (unless_cancelled given prompt listening spoken cancelled s)
    cancelled_Acts s true = inl refl
    cancelled_Acts s false = considered-Acts s s.memory

    -- In a turn the agent hands over no plans, whatever else happens and however it ends, unless the
    -- turn was routed to the agent; and then the prompt answers a question of the agent, or it asks for
    -- no explanation and an action rule, the resolver or the classifier's model gave the reason.
    pub respond-Acts :
        (s : RonAssistant)
        → let s' = (respond given prompt listening spoken s).1 in
          (handed_by s'.agent ≡ handed_by s.agent)
          ⊎ ((d : RoutingDecision) × (s'.last_route ≡ some d)
              × (d.destination ≡ agent)
              × Wanted s.agent)
    unfolding respond
    respond-Acts s = cancelled_Acts s given.cancelled_before
