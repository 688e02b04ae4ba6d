-- ===== src/Routing.antt =====
-- ron/routing.py: where a prompt goes, to the conversation or to the agent. What a regular expression
-- finds in a text, the resolver and the answer of the classifier's model are arguments.
pub mod Rules
pub mod Deciding
pub mod Tests
use ron_personal_assistant.Prelude.{
  ℕ, String, count, Bool, true, false, ◌&&◌, ◌||◌, not, Option, none, some, List, [], ◌∷◌, ltb, leb,
  ◌==◌, if◌then◌else◌, length, is_truthy, strip, f_string, mem_text, Result, ok, err, ◌>>=◌,
}
use ron_personal_assistant.Routing.Rules.{
  RoutingRule, explanation_rules, external_state_rules, destructive_rules, direct_action_rules,
  obvious_chat_rules,
}

pub data RouteDestination : Type 0 where
  chat agent : RouteDestination

pub data RouteSource : Type 0 where
  deterministic local_model safe_fallback : RouteSource

-- The confidence is in hundredths.
pub record RoutingDecision : Type 0 where
  pub destination : RouteDestination
  pub confidence : ℕ
  pub reason : String
  pub source : RouteSource
  pub requires_confirmation : Bool

-- The `ValueError`s, and what a model client raises that is no `AIError`.
pub data RoutingError : Type 0 where
  bad_limit empty_prompt over_limit bad_confidence bad_reason client_failed : RoutingError

-- `__post_init__`
unfoldable pub decision : RoutingDecision → Result RoutingError RoutingDecision
decision d =
    if not (leb d.confidence 100)
    then err bad_confidence
    else if not (is_truthy d.reason) || ltb 240 (count d.reason)
    then err bad_reason
    else ok d

-- How a call of the classifier's model ends: with an `AIError`, with another exception (the clients
-- raise a `ValueError` for a prompt beyond their own limit), or with an answer that has a label or none.
pub data Classified : Type 0 where
  unavailable raised no_label : Classified
  labelled : RouteDestination → Classified

-- What the router is given.
pub record Readings : Type 0 where
  -- `re.search` of a pattern, ignoring case
  pub search : String → String → Bool
  -- the two kinds of apostrophes replaced
  pub route_text : String → String
  -- the words of a text, in lower case
  pub words : String → List String
  -- `AMBIGUOUS_REQUEST` and `CONFIRMATION_SENSITIVE`
  pub ambiguous : String → Bool
  pub sensitive : String → Bool
  -- the first label in what the model answers, if it answers
  pub classifier : String → Classified
  -- the answer of the resolver, if there is one; an exception counts as "no"
  pub action_resolver : Option (String → Result String Bool)

pub record PromptRouter : Type 0 where
  pub max_prompt_characters : ℕ

-- `__init__`
unfoldable pub new_router : ℕ → Result RoutingError PromptRouter
new_router limit =
    if not (leb 100 limit && leb limit 64000)
    then err bad_limit
    else ok (record { max_prompt_characters = limit })

abbrev conversational_starts : List String
conversational_starts =
    "i" ∷ "i'm" ∷ "im" ∷ "we" ∷ "we're" ∷ "my" ∷ "you" ∷ "you're" ∷ "it" ∷ "this" ∷ "that" ∷ "there"
    ∷ "yes" ∷ "no" ∷ "okay" ∷ "ok" ∷ "thanks" ∷ "thank" ∷ []

abbrev pub is_yes : Result String Bool → Bool
is_yes (ok answer) = answer
is_yes (err _) = false

-- `_decision`
abbrev pub decided : RouteDestination → RoutingRule → ℕ → RoutingDecision
decided destination rule confidence = record {
  destination = destination;
  confidence = confidence;
  reason = rule.reason;
  source = deterministic;
  requires_confirmation = rule.requires_confirmation;
}

abbrev pub plain : RouteDestination → ℕ → String → RouteSource → RoutingDecision
plain destination confidence reason source = record {
  destination = destination;
  confidence = confidence;
  reason = reason;
  source = source;
  requires_confirmation = false;
}

-- The decision by a rule that matches, or another one.
abbrev pub or_else :
    Option RoutingRule
    → RouteDestination
    → ℕ
    → Result RoutingError RoutingDecision
    → Result RoutingError RoutingDecision
or_else none destination confidence other = other
or_else (some rule) destination confidence other = ok (decided destination rule confidence)

module _ (read : Readings) where
  -- `_first_match`
  unfoldable pub first_match : List RoutingRule → String → Option RoutingRule
  first_match [] prompt = none
  first_match (rule ∷ rules) prompt =
      let rest = first_match rules prompt in
      if read.search rule.pattern prompt then some rule else rest

  -- `_looks_like_command`
  unfoldable pub looks_like_command : String → Bool
  looks_like_command prompt = elim (read.words prompt) [
    | [] ↦ false
    | first ∷ words ↦
        if ltb 24 (length (first ∷ words))
        then false
        else if read.ambiguous prompt
        then true
        else not (mem_text first conversational_starts)
  ]

  abbrev pub is_agent : RouteDestination → Bool
  is_agent chat = false
  is_agent agent = true

  -- `_classify_with_local_model`
  abbrev pub classified : String → Classified → Result RoutingError RoutingDecision
  classified prompt unavailable = ok (
      plain chat 35 "The classifier was unavailable, so Ron chose the non-executing path."
        safe_fallback)
  classified prompt raised = err client_failed
  classified prompt no_label = ok (
      plain chat 35 "The classifier response was invalid, so Ron chose the non-executing path."
        safe_fallback)
  classified prompt (labelled destination) = ok (record {
    destination = destination;
    confidence = 82;
    reason = "The configured AI classifier resolved an ambiguous request.";
    source = local_model;
    requires_confirmation = is_agent destination && read.sensitive prompt;
  })

  -- The resolver, of a prompt that looks like a command.
  abbrev pub resolved : Bool → RoutingDecision
  resolved true =
      plain agent 90 "Ron's semantic resolver mapped the ordinary phrasing to an approved action."
        local_model
  resolved false =
      plain chat 72 "No approved action matched, so Ron kept the request conversational."
        safe_fallback

  -- The end of `route`, behind the resolver.
  unfoldable pub ambiguous_or_chat : String → String → Result RoutingError RoutingDecision
  ambiguous_or_chat clean_prompt route_text =
      if read.ambiguous route_text
      then classified clean_prompt (read.classifier clean_prompt)
      else ok
          (plain chat 80 "No external action or live-state requirement was detected." deterministic)

  unfoldable pub resolve :
      String → String → Option (String → Result String Bool) → Result RoutingError RoutingDecision
  resolve clean_prompt route_text none = ambiguous_or_chat clean_prompt route_text
  resolve clean_prompt route_text (some resolver) =
      if looks_like_command route_text
      then ok (resolved (is_yes (resolver clean_prompt)))
      else ambiguous_or_chat clean_prompt route_text

  -- The tables of `route`, in their order, and the rest of it.
  unfoldable pub by_rules : String → String → Result RoutingError RoutingDecision
  by_rules clean_prompt route_text =
      let otherwise = resolve clean_prompt route_text read.action_resolver in
      let chats = or_else (first_match obvious_chat_rules route_text) chat 96 otherwise in
      let acts = or_else (first_match direct_action_rules route_text) agent 98 chats in
      let destroys = or_else (first_match destructive_rules route_text) agent 98 acts in
      let reads = or_else (first_match external_state_rules route_text) agent 98 destroys in
      or_else (first_match explanation_rules route_text) chat 98 reads

  -- `route`
  unfoldable pub route : PromptRouter → String → Result RoutingError RoutingDecision
  unfolding by_rules resolve ambiguous_or_chat
  route router prompt =
      let clean_prompt = strip prompt in
      if not (is_truthy clean_prompt)
      then err empty_prompt
      else if ltb router.max_prompt_characters (count clean_prompt)
      then err over_limit
      else by_rules clean_prompt (read.route_text clean_prompt) >>= decision
