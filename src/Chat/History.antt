-- ===== src/Chat/History.antt =====
-- `ConversationTurn` and `ConversationHistory` of ron/chat.py.
pub mod Trim
mod Tests
use ron_personal_assistant.Prelude.{
  ℕ, ◌+◌, ◌-◌, String, count, Bool, true, false, ◌&&◌, ◌||◌, not, List, [], ◌∷◌, ◌++◌, ltb, leb,
  if◌then◌else◌, length, is_truthy, Result, ok, err,
}

pub record ConversationTurn : Type 0 where
  pub user : String
  pub assistant : String

unfoldable pub character_count : ConversationTurn → ℕ
character_count turn = count turn.user + count turn.assistant

pub record ConversationHistory : Type 0 where
  pub ready_turn_limit : ℕ
  pub continuous_turn_limit : ℕ
  pub character_limit : ℕ
  pub turns : List ConversationTurn
  pub continuous : Bool

-- the `ValueError`s, by what they complain of
pub data HistoryError : Type 0 where
  invalid_turn_limits invalid_character_limit empty_turn : HistoryError

-- `__init__`
unfoldable pub new_history : ℕ → ℕ → ℕ → Result HistoryError ConversationHistory
new_history ready continuous characters =
    if not (leb 1 ready && leb ready continuous && leb continuous 100)
    then err invalid_turn_limits
    else if not (leb 1000 characters && leb characters 250000)
    then err invalid_character_limit
    else ok (record {
      ready_turn_limit = ready;
      continuous_turn_limit = continuous;
      character_limit = characters;
      turns = [];
      continuous = false;
    })

unfoldable pub turn_limit : ConversationHistory → ℕ
turn_limit h = if h.continuous then h.continuous_turn_limit else h.ready_turn_limit

-- `while len(self._turns) > turn_limit: self._turns.pop(0)`
unfoldable pub trim_turns : ℕ → List ConversationTurn → List ConversationTurn
trim_turns limit [] = []
trim_turns limit (t ∷ ts) = if ltb limit (length (t ∷ ts)) then trim_turns limit ts else t ∷ ts

-- `sum(turn.character_count for turn in self._turns)`
unfoldable pub characters : List ConversationTurn → ℕ
characters [] = 0
characters (t ∷ ts) = character_count t + characters ts

-- `while self._turns and character_count > limit: character_count -= self._turns.pop(0)...`
unfoldable pub trim_characters : ℕ → ℕ → List ConversationTurn → List ConversationTurn
trim_characters limit total [] = []
trim_characters limit total (t ∷ ts) =
    if ltb limit total then trim_characters limit (total - character_count t) ts else t ∷ ts

-- `_trim`
unfoldable pub trim : ConversationHistory → ConversationHistory
trim h =
    let turns = trim_turns (turn_limit h) h.turns in
    record h { turns = trim_characters h.character_limit (characters turns) turns }

unfoldable pub set_continuous : ConversationHistory → Bool → ConversationHistory
set_continuous h enabled = trim (record h { continuous = enabled })

unfoldable pub clear : ConversationHistory → ConversationHistory
clear h = record h { turns = [] }

-- `record`
unfoldable pub record_turn :
    ConversationHistory → String → String → Result HistoryError ConversationHistory
record_turn h user assistant =
    if not (is_truthy user) || not (is_truthy assistant)
    then err empty_turn
    else ok
        (trim (record h { turns = h.turns ++ record { user = user; assistant = assistant } ∷ [] }))

pub record Message : Type 0 where
  pub role : String
  pub content : String

messages_of : List ConversationTurn → List Message
messages_of [] = []
messages_of (t ∷ ts) =
    record { role = "user"; content = t.user }
    ∷ record { role = "assistant"; content = t.assistant }
    ∷ messages_of ts

unfoldable pub messages : ConversationHistory → List Message
unfolding messages_of
messages h = messages_of h.turns
