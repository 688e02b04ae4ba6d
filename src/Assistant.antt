-- ===== src/Assistant.antt =====
-- ron/assistant.py: `RonAssistant`, which gives every prompt to the memory, the conversation or the
-- agent. A call holds the turn lock, so it is one step. Listeners raise no exception; the agent's own
-- reports, and a cancellation during one of them, are left out.
pub mod Gate
mod Tests
use ron_personal_assistant.Prelude.{
  ℕ, String, Bool, true, false, Option, none, some, List, [], ◌∷◌, ◌++◌, if◌then◌else◌, map, strip,
  str_eq, f_string, Result, ok, err,
}
use ron_personal_assistant.Core.{FaceExpression, speaking, thinking, error, idle}
use ron_personal_assistant.Chat.History.{ConversationHistory, HistoryError, Message, record_turn}
use ron_personal_assistant.Chat.Turn.{
  ChatSettings, ChatError, failed, Effect, shows, emits, Stream, respond as chat_respond,
}
use ron_personal_assistant.Agent.Models.{ToolStatus, ToolResult}
use ron_personal_assistant.Agent.Service.{
  AgentService, AgentResponse, ServiceError, Surroundings, expire_pending,
}
use ron_personal_assistant.Agent.Service.Dialogue.{
  claims_interaction as agent_claims, respond as agent_respond,
}
use ron_personal_assistant.Memory.Service.{
  MemoryService, MemoryError, MemoryCandidate, Around, consider_user_statement,
}
use ron_personal_assistant.Memory.Dialogue.{
  MemoryIntelligence, Patterns, claims_interaction as memory_claims, handle,
}
use ron_personal_assistant.Routing.{
  RouteDestination, chat, agent, RoutingDecision, deterministic, RoutingError, Readings,
  PromptRouter, route,
}

-- The memory service and its dialogue are there together.
pub record RonAssistant : Type 0 where
  pub history : ConversationHistory
  pub agent : Option AgentService
  pub memory : Option MemoryIntelligence
  pub last_route : Option RoutingDecision

-- What the assistant is given, at the time of a prompt.
pub record Given : Type 0 where
  pub settings : ChatSettings
  pub provider : Option (String → Result String String)
  pub stream_chat : List Message → ℕ → Stream
  pub around : Around
  pub patterns : Patterns
  -- `MemoryPolicy.candidate_from_user`
  pub candidate_from_user : String → Option MemoryCandidate
  pub surroundings : Surroundings
  pub router : PromptRouter
  pub readings : Readings
  -- whether the turn has been cancelled before it starts, and before the agent returns
  pub cancelled_before : Bool
  pub cancelled_after : Bool

pub data AssistantError : Type 0 where
  turn_cancelled : AssistantError
  memory_failed : MemoryError → AssistantError
  unrouted : RoutingError → AssistantError
  chat_failed : ChatError → AssistantError
  agent_failed : ServiceError → AssistantError
  unrecorded : HistoryError → AssistantError

pub record AssistantResponse : Type 0 where
  pub text : String
  pub route : RoutingDecision
  pub agent : Option AgentResponse

-- What is seen of a turn, in order: reports of its progress, faces and texts.
pub data Event : Type 0 where
  reports : String → Event
  does : Effect → Event

abbrev certain : RouteDestination → String → RoutingDecision
certain destination reason = record {
  destination = destination;
  confidence = 100;
  reason = reason;
  source = deterministic;
  requires_confirmation = false;
}

abbrev pub claimed_by_agent : RoutingDecision
claimed_by_agent = certain agent "The prompt answers Ron's pending confirmation or clarification."

abbrev pub claimed_by_memory : RoutingDecision
claimed_by_memory = certain chat "The prompt is an explicit long-term memory interaction."

abbrev pub Turn : Type 0
Turn = Result AssistantError AssistantResponse × RonAssistant × List Event

abbrev answering_face : Bool → FaceExpression
answering_face spoken = if spoken then thinking else speaking

abbrev told : Bool → String → List Event
told listening text = if listening then does (emits text) ∷ [] else []

-- The texts of a turn go into the history.
abbrev pub recorded :
    RonAssistant → Result HistoryError ConversationHistory → Result HistoryError RonAssistant
recorded s (ok history) = ok (record s { history = history })
recorded s (err e) = err e

abbrev pub settled :
    RonAssistant
    → AssistantResponse
    → Result HistoryError RonAssistant
    → Result AssistantError AssistantResponse × RonAssistant
settled s response (ok s') = (ok response, s')
settled s response (err e) = (err (unrecorded e), s)

abbrev unavailable_message : String
unavailable_message = f_string (
    "That needs access to your computer or live information, so I've "
    ∷ "routed it to my agent side. My safe tools aren't connected, so I "
    ∷ "haven't changed anything." ∷ [])

abbrev failed_status : Option ToolResult → Bool
failed_status none = false
failed_status (some result) = elim result.status [
  | ToolStatus.failed ↦ true
  | ToolStatus.timed_out ↦ true
  | _ ↦ false
]

abbrev pub is_task : AgentResponse → Bool
is_task response = elim response.task [ none ↦ false | some task ↦ true ]

module _ (given : Given) where
  -- `_consider_user_memory`; no exception leaves it.
  abbrev pub learned : Option MemoryIntelligence → String → Option MemoryIntelligence
  learned none prompt = none
  learned (some m) prompt = some (record m {
    memory = (consider_user_statement given.around m.memory (given.candidate_from_user prompt)).1;
  })

  unfoldable pub consider_user_memory : RonAssistant → String → RonAssistant
  consider_user_memory s prompt = record s { memory = learned s.memory prompt }

  abbrev pub with_route :
      RonAssistant → RoutingDecision → Result RoutingError RoutingDecision × RonAssistant
  with_route s decision = (ok decision, record s { last_route = some decision })

  abbrev pub routed :
      RonAssistant
      → Result RoutingError RoutingDecision
      → Result RoutingError RoutingDecision × RonAssistant
  routed s (ok decision) = with_route s decision
  routed s (err e) = (err e, s)

  unfoldable pub decide_agent :
      RonAssistant
      → String
      → Option AgentService
      → Result RoutingError RoutingDecision × RonAssistant
  decide_agent s prompt none = routed s (route given.readings given.router prompt)
  decide_agent s prompt (some a) =
      let s' = record s { agent = some (expire_pending a given.surroundings.now) } in
      if agent_claims given.surroundings a prompt
      then with_route s' claimed_by_agent
      else routed s' (route given.readings given.router prompt)

  abbrev pub memory_claims_it : Option MemoryIntelligence → String → Bool
  memory_claims_it none prompt = false
  memory_claims_it (some m) prompt = memory_claims given.around given.patterns m prompt

  -- `_decide_locked`
  unfoldable pub decide : RonAssistant → String → Result RoutingError RoutingDecision × RonAssistant
  unfolding decide_agent
  decide s prompt =
      if memory_claims_it s.memory prompt
      then with_route s claimed_by_memory
      else decide_agent s prompt s.agent

  module _ (prompt : String) (listening spoken : Bool) where
    -- The turn of a prompt that the memory has answered.
    unfoldable pub memory_turn : RonAssistant → MemoryIntelligence → String → Turn
    memory_turn s m reply =
        let decision = certain chat "The prompt was handled directly by Ron's memory system." in
        let s' = record s { memory = some m; last_route = some decision } in
        let (result, s'') =
          settled s' (record { text = reply; route = decision; agent = none })
            (recorded s' (record_turn s.history (strip prompt) reply)) in
        (
          result,
          s'',
          does (shows (answering_face spoken)) ∷ (told listening reply ++ does (shows idle) ∷ []),
        )

    abbrev chat_error : ChatError → AssistantError
    chat_error (failed name) =
        if str_eq name "InferenceCancelled" then turn_cancelled else chat_failed (failed name)
    chat_error e = chat_failed e

    abbrev pub chatted :
        RonAssistant
        → RoutingDecision
        → Result ChatError (String × ConversationHistory) × List Effect
        → Turn
    chatted s decision (err e, effects) =
        (err (chat_error e), s, reports "Thinking about the reply…" ∷ map does effects)
    chatted s decision (ok (text, history), effects) = (
      ok (record { text = text; route = decision; agent = none }),
      consider_user_memory (record s { history = history }) prompt,
      reports "Thinking about the reply…" ∷ map does effects,
    )

    abbrev pub then_learned :
        Result AssistantError AssistantResponse × RonAssistant
        → Result AssistantError AssistantResponse × RonAssistant
    then_learned (ok answer, s') = (ok answer, consider_user_memory s' prompt)
    then_learned (err e, s') = (err e, s')

    -- The end of an agent's turn: the text, the history unless a task will answer, and the memory.
    unfoldable pub finish_agent :
        RonAssistant
        → RoutingDecision
        → String
        → Option AgentResponse
        → Bool
        → Result AssistantError AssistantResponse × RonAssistant
    unfolding consider_user_memory
    finish_agent s decision message response submitted = then_learned (
        settled s (record { text = message; route = decision; agent = response })
          (if submitted then ok s else recorded s (record_turn s.history (strip prompt) message)))

    -- What is done with the agent's response, unless the turn has been cancelled meanwhile.
    unfoldable pub returned : RonAssistant → RoutingDecision → AgentResponse → Bool → Turn
    unfolding finish_agent
    returned s decision response true =
        (err turn_cancelled, s, does (shows thinking) ∷ does (shows idle) ∷ [])
    returned s decision response false =
        let (result, s') =
          finish_agent s decision response.text (some response) (is_task response) in
        (
          result,
          s',
          does (shows thinking)
              ∷ does (
                  shows
                    (if failed_status response.tool_result then error else answering_face spoken))
              ∷ (told listening response.text ++ does (shows idle) ∷ []),
        )

    abbrev pub answered :
        RonAssistant → RoutingDecision → Result ServiceError AgentResponse × AgentService → Turn
    answered s decision (err e, a) = (
      err (agent_failed e),
      record s { agent = some a },
      does (shows thinking) ∷ does (shows idle) ∷ [],
    )
    answered s decision (ok response, a) =
        returned (record s { agent = some a }) decision response given.cancelled_after

    unfoldable pub agent_turn : RonAssistant → RoutingDecision → Option AgentService → Turn
    agent_turn s decision none =
        let (result, s') = finish_agent s decision unavailable_message none false in
        (
          result,
          s',
          does (shows thinking)
              ∷ reports "Checking available computer controls…"
              ∷ (told listening unavailable_message ++ does (shows idle) ∷ []),
        )
    agent_turn s decision (some a) = answered s decision (agent_respond given.surroundings a prompt)

    abbrev pub dispatched : Result RoutingError RoutingDecision × RonAssistant → Turn
    dispatched (err e, s) = (err (unrouted e), s, [])
    dispatched (ok decision, s) = elim decision.destination [
      | chat ↦ chatted s decision (
          chat_respond given.settings given.provider given.stream_chat s.history prompt listening
            spoken)
      | agent ↦ agent_turn s decision s.agent
    ]

    abbrev pub remembered :
        RonAssistant → Result MemoryError (Option String) × MemoryIntelligence → Turn
    remembered s (err e, m) = (err (memory_failed e), record s { memory = some m }, [])
    remembered s (ok (some reply), m) = memory_turn s m reply
    remembered s (ok none, m) =
        let s' = record s { memory = some m } in dispatched (decide s' prompt)

    abbrev pub considered : RonAssistant → Option MemoryIntelligence → Turn
    considered s none = dispatched (decide s prompt)
    considered s (some m) = remembered s (handle given.around given.patterns m prompt)

    abbrev pub unless_cancelled : Bool → RonAssistant → Turn
    unless_cancelled true s = (err turn_cancelled, s, [])
    unless_cancelled false s =
        let (result, s', events) = considered s s.memory in
        (result, s', reports "Understanding your request…" ∷ events)

    -- `_respond_locked`
    unfoldable pub respond : RonAssistant → Turn
    unfolding memory_turn agent_turn decide
    respond s = unless_cancelled given.cancelled_before s
