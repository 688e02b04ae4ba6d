-- ===== src/Chat/History/Tests.antt =====
-- Concrete histories: the witnesses of the theorems on `_trim`, and runs of it.
use ron_personal_assistant.Prelude.{◌≡◌, refl, true, false, List, [], ◌∷◌, ◌++◌, arith, ok, err}
use ron_personal_assistant.Chat.History.{
  ConversationHistory, new_history, record_turn, trim, turn_limit, trim_turns, characters,
  character_count, trim_characters, empty_turn,
}
use ron_personal_assistant.Chat.History.Trim.{
  turn, IsLongest, record_turn-IsLongest, Operation, records, sets_continuous, IsBounded,
}

abbrev small : ConversationHistory
small = record {
  ready_turn_limit = 1;
  continuous_turn_limit = 2;
  character_limit = 1000;
  turns = turn "hi" "hello" ∷ [];
  continuous = false;
}

abbrev small_next : ConversationHistory
small_next = record small { turns = turn "one" "two" ∷ [] }

small_records : record_turn small "one" "two" ≡ ok small_next
unfolding record_turn trim turn_limit trim_turns characters character_count trim_characters
small_records = refl

empty_reply : record_turn small "one" "" ≡ err empty_turn
unfolding record_turn
empty_reply = refl

record_turn-IsLongest_example :
    IsLongest (turn_limit small) 1000 (small.turns ++ turn "one" "two" ∷ []) small_next.turns
    × (small_next ≡ record small { turns = small_next.turns })
record_turn-IsLongest_example = record_turn-IsLongest small "one" "two" small_records

small-IsBounded : IsBounded small
unfolding turn_limit characters character_count
small-IsBounded = omega arith

abbrev session : List Operation
session = sets_continuous true ∷ records "one" "two" ∷ records "" "x" ∷ sets_continuous false ∷ []

abbrev fresh : ConversationHistory
fresh = record {
  ready_turn_limit = 4;
  continuous_turn_limit = 16;
  character_limit = 48000;
  turns = [];
  continuous = false;
}

fresh_made : new_history 4 16 48000 ≡ ok fresh
unfolding new_history
fresh_made = refl
