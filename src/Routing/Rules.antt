-- ===== src/Routing/Rules.antt =====
-- The tables of ron/routing.py: what `re.search` looks for in a prompt, ignoring case, and why a prompt
-- that it finds it in goes where it goes.
use ron_personal_assistant.Prelude.{String, Bool, true, false, List, [], ◌∷◌}

pub record RoutingRule : Type 0 where
  pub pattern : String
  pub reason : String
  pub requires_confirmation : Bool

abbrev rule : String → String → Bool → RoutingRule
rule pattern reason requires_confirmation = record {
  pattern = pattern;
  reason = reason;
  requires_confirmation = requires_confirmation;
}

abbrev pub explanation_rules : List RoutingRule
explanation_rules =
    rule "^(?:how (?:do|can|could|should) i|teach me|explain|what happens if)\\b"
      "The user is asking for knowledge or guidance, not execution." false
    ∷ rule "^(?:write|draft|rewrite|summari[sz]e|brainstorm|plan|recommend)\\b"
        "The request can be fulfilled by generating conversational content." false
    ∷ []

abbrev pub external_state_rules : List RoutingRule
external_state_rules =
    rule
      "\\b(?:status(?: of)?|how is|how's|check|list|show|cancel|stop)\\b.*\\b(?:task|tasks|job|jobs)\\b"
      "The prompt reads or changes Ron's live agent-task state." false
    ∷ rule "\\b(?:show|list|cancel|delete|remove|what are)\\b.*\\breminders?\\b"
        "The prompt reads or changes Ron's live reminder state." false
    ∷ rule
        "\\b(?:what(?:'?s| is) (?:the )?(?:current )?time|what time is it(?: right now)?|tell me (?:the )?(?:current )?time|current time|time right now)\\b"
        "Current time requires trusted computer state." false
    ∷ rule
        "\\b(?:what(?:'?s| is) (?:the )?(?:current )?date|what(?:'?s| is) today'?s date|what day is it|tell me (?:today'?s|the current) date|current date|today'?s date|date today)\\b"
        "The current date requires trusted computer state." false
    ∷ rule "\\b(?:weather|forecast|traffic|latest news|current news)\\b"
        "Live information requires an external data tool." false
    ∷ rule
        "\\b(?:battery|cpu|memory|disk|storage|network|wi-?fi)\\b.*\\b(?:status|usage|left|available|connected|speed|level|percent|percentage|charge)\\b"
        "The answer depends on live computer state." false
    ∷ rule "\\b(?:what|which|show|list)\\b.*\\b(?:files|folders|downloads|documents)\\b"
        "The answer requires reading the live file system." false
    ∷ rule "\\b(?:search|find)\\b.*\\b(?:desktop|downloads|documents)\\b"
        "The request searches an approved live folder." false
    ∷ rule "\\b(?:what|current|check)\\b.*\\b(?:volume|brightness)\\b"
        "The answer depends on a live computer setting." false
    ∷ rule
        "\\b(?:battery|charging|charge level|cpu|processor|memory|ram|disk|storage|performance)\\b"
        "The answer depends on live computer hardware state." false
    ∷ rule
        "\\b(?:what|which)\\b.*\\b(?:apps|applications|windows|processes)\\b.*\\b(?:open|running|active)\\b"
        "The answer depends on live application state." false
    ∷ []

abbrev pub destructive_rules : List RoutingRule
destructive_rules =
    rule
      "^(?:please\\s+)?(?:(?:can|could|would) you\\s+)?(?:delete|remove|erase|uninstall|format|wipe|overwrite|empty)\\b"
      "The request changes or removes user data or software." true
    ∷ rule
        "^(?:please\\s+)?(?:(?:can|could|would) you\\s+)?(?:shut ?down|restart|reboot|log ?out)\\b"
        "The request changes the computer session or power state." true
    ∷ []

abbrev pub direct_action_rules : List RoutingRule
direct_action_rules =
    rule "^(?:do|run|try|repeat)\\s+(?:that|it)\\s+again\\b"
      "The user asks Ron to repeat a verified previous action." false
    ∷ rule "^(?:set\\s+(?:a\\s+)?timer|remind\\s+me)\\b"
        "The prompt creates a local timer or reminder." false
    ∷ rule "^(?:please\\s+)?(?:open|launch|close|start|stop)\\b.*"
        "The prompt directly requests an application or computer action." false
    ∷ rule
        "^(?:please\\s+)?(?:can|could|would) you\\s+(?:open|launch|close|start|stop|click|press|type|scroll|drag)\\b"
        "The user asks Ron to operate an interface." false
    ∷ rule
        "\\b(?:set|change|adjust|turn|mute|unmute)\\b.*\\b(?:volume|brightness|wi-?fi|bluetooth|setting)\\b"
        "The prompt requests a computer setting change." false
    ∷ rule "^(?:turn it (?:up|down)|make it (?:louder|quieter))$"
        "The prompt requests a small relative volume change." false
    ∷ rule "^(?:please\\s+)?(?:click|press|type|scroll|drag|download|upload)\\b"
        "The prompt directly requests interface or transfer work." false
    ∷ rule
        "\\b(?:play|pause|resume|unpause|continue|carry\\s+on|keep\\s+playing|skip)\\b.*\\b(?:song|music|track|spotify|video|youtube)\\b"
        "The prompt requests media control." false
    ∷ rule "^(?:play|pause|resume|unpause|continue|next|skip|previous)(?:\\s+.*)?$"
        "The prompt requests media playback or selection." false
    ∷ rule "^(?:mute|unmute)(?:\\s+(?:audio|sound|volume))?$"
        "The prompt requests an audio setting change." false
    ∷ rule
        "\\b(?:create|edit|save|rename|move|copy)\\b.*\\b(?:file|folder|document|spreadsheet|presentation)\\b"
        "The prompt requests a file or application change." false
    ∷ rule "\\b(?:send|post|publish)\\b.*\\b(?:email|message|reply|comment|attachment)\\b"
        "The prompt requests an external communication action." true
    ∷ []

abbrev pub obvious_chat_rules : List RoutingRule
obvious_chat_rules =
    rule "^(?:hi|hello|hey|good (?:morning|afternoon|evening)|how are you)\\b"
      "The prompt is ordinary social conversation." false
    ∷ rule "^(?:what|who|why|when|where)\\b"
        "The prompt is answerable as a conversational question." false
    ∷ rule "^(?:tell me|help me understand|give me|could you explain|can you explain)\\b"
        "The prompt asks for conversational knowledge or content." false
    ∷ []
