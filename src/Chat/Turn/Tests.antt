-- ===== src/Chat/Turn/Tests.antt =====
-- A concrete client: the witnesses of the theorems on a chat turn.
use ron_personal_assistant.Prelude.{
  ℕ, ◌≡◌, refl, true, false, some, List, [], ◌∷◌, String, arith, strip, Result, ok, Option,
}
use ron_personal_assistant.Core.{speaking, thinking, idle}
use ron_personal_assistant.Chat.History.{
  ConversationHistory, Message, record_turn, trim, turn_limit, trim_turns, characters,
  character_count, trim_characters,
}
use ron_personal_assistant.Chat.History.Trim.{turn}
use ron_personal_assistant.Chat.Turn.{ChatSettings, Stream, respond, settle_reply}
use ron_personal_assistant.Chat.Turn.Effects.{faces, emitted, respond_effects}

abbrev pub settings : ChatSettings
settings = record {
  user_name = "Alex";
  ready_turn_limit = 1;
  continuous_turn_limit = 2;
  history_character_limit = 1000;
  max_input_characters = 100;
  max_output_tokens = 64;
  voice_max_output_tokens = 32;
  temperature = 700;
}

abbrev pub notes : Option (String → Result String String)
notes = some (λ prompt. ok "likes tea")

abbrev pub client : List Message → ℕ → Stream
client messages tokens = record { chunks = "He" ∷ "llo " ∷ []; outcome = ok "Hello " }

abbrev pub history : ConversationHistory
history = record {
  ready_turn_limit = 1;
  continuous_turn_limit = 2;
  character_limit = 1000;
  turns = turn "a" "b" ∷ [];
  continuous = false;
}

abbrev after : ConversationHistory
after = record history { turns = turn "hi" "Hello" ∷ [] }

one_turn : (respond settings notes client history " hi " true false).0 ≡ ok ("Hello ", after)
unfolding respond settle_reply strip record_turn trim turn_limit trim_turns characters
    character_count trim_characters
one_turn = refl

respond_effects_example :
    let (result, trace) = respond settings notes client history " hi " true false in
    (faces trace ≡ thinking ∷ speaking ∷ idle ∷ []) × (emitted trace ≡ "He" ∷ "llo " ∷ [])
unfolding respond settle_reply strip record_turn trim turn_limit trim_turns characters
    character_count trim_characters
respond_effects_example =
    respond_effects settings notes client history " hi " true false refl (omega arith)
