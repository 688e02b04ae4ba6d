-- ===== src/Chat/History/Trim.antt =====
-- `_trim` of ron/chat.py keeps the longest run of recent turns that both limits allow.
use ron_personal_assistant.Prelude.{
  ℕ, ◌+◌, ◌-◌, ◌≤◌, String, ◌≡◌, refl, inl, inr, Bool, false, List, [], ◌∷◌, ◌++◌, arith, ltb,
  length, IsSuffix, Result, ok, err,
}
use ron_personal_assistant.Chat.History.{
  ConversationTurn, ConversationHistory, HistoryError, character_count, turn_limit, trim_turns,
  characters, trim_characters, trim, set_continuous, clear, record_turn, new_history,
}

abbrev Turns : Type 0
Turns = List ConversationTurn

IsSuffix-length-le : (s ts : Turns) → IsSuffix s ts → length s ≤ length ts
IsSuffix-length-le s [] h = ground arith
IsSuffix-length-le s (t ∷ ts) h = ground (arith, IsSuffix-length-le s ts)

IsSuffix-characters-le : (s ts : Turns) → IsSuffix s ts → characters s ≤ characters ts
unfolding characters
IsSuffix-characters-le s [] h = ground arith
IsSuffix-characters-le s (t ∷ ts) h = ground (arith, IsSuffix-characters-le s ts)

IsSuffix-trans : (r s ts : Turns) → IsSuffix r s → IsSuffix s ts → IsSuffix r ts
IsSuffix-trans r s [] h k = rw k at h
IsSuffix-trans r s (t ∷ ts) h (inl e) = rw e at h
IsSuffix-trans r s (t ∷ ts) h (inr k) = inr (IsSuffix-trans r s ts h k)

module _ (limit : ℕ) where
  trim_turns-IsSuffix : (ts : Turns) → IsSuffix (trim_turns limit ts) ts
  unfolding trim_turns
  trim_turns-IsSuffix [] = refl
  trim_turns-IsSuffix (t ∷ ts) = ground (arith, trim_turns-IsSuffix ts)

  length-trim_turns-le : (ts : Turns) → length (trim_turns limit ts) ≤ limit
  unfolding trim_turns
  length-trim_turns-le [] = omega arith
  length-trim_turns-le (t ∷ ts) = ground (arith, length-trim_turns-le ts)

  trim_turns_longest :
      (s ts : Turns) → IsSuffix s ts → length s ≤ limit → IsSuffix s (trim_turns limit ts)
  unfolding trim_turns
  trim_turns_longest s [] h k = h
  trim_turns_longest s (t ∷ ts) (inl e) k =
      let whole : length (t ∷ ts) ≤ limit = rw e at k in
      let fits : ltb limit (length (t ∷ ts)) ≡ false = ground arith in rw (e, fits) (inl refl)
  trim_turns_longest s (t ∷ ts) (inr h) k =
      ground (arith, trim_turns_longest s ts h k, IsSuffix-length-le s ts h)

  trim_characters-IsSuffix : (total : ℕ) (ts : Turns) → IsSuffix (trim_characters limit total ts) ts
  unfolding trim_characters
  trim_characters-IsSuffix total [] = refl
  trim_characters-IsSuffix total (t ∷ ts) =
      ground (arith, trim_characters-IsSuffix (total - character_count t) ts)

  characters-trim_characters-le :
      (ts : Turns) → characters (trim_characters limit (characters ts) ts) ≤ limit
  unfolding trim_characters characters
  characters-trim_characters-le [] = omega arith
  characters-trim_characters-le (t ∷ ts) =
      let same : character_count t + characters ts - character_count t ≡ characters ts =
        omega arith in
      rw same (ground (arith, characters-trim_characters-le ts))

  trim_characters_longest :
      (s ts : Turns)
      → IsSuffix s ts
      → characters s ≤ limit
      → IsSuffix s (trim_characters limit (characters ts) ts)
  unfolding trim_characters characters
  trim_characters_longest s [] h k = h
  trim_characters_longest s (t ∷ ts) (inl e) k =
      let whole : characters (t ∷ ts) ≤ limit = rw e at k in
      let fits : ltb limit (characters (t ∷ ts)) ≡ false = ground arith in rw (e, fits) (inl refl)
  trim_characters_longest s (t ∷ ts) (inr h) k =
      let same : character_count t + characters ts - character_count t ≡ characters ts =
        omega arith in
      rw same (ground (arith, trim_characters_longest s ts h k))

-- `r` is the longest end of `all` that both limits allow.
pub record IsLongest (turns characters_allowed : ℕ) (all r : Turns) : Type 0 where
  pub is_end : IsSuffix r all
  pub within_turns : length r ≤ turns
  pub within_characters : characters r ≤ characters_allowed
  pub longest :
      (s : Turns)
      → IsSuffix s all
      → length s ≤ turns
      → characters s ≤ characters_allowed
      → IsSuffix s r

trim-IsLongest :
    (h : ConversationHistory) → IsLongest (turn_limit h) h.character_limit h.turns (trim h).turns
unfolding trim
trim-IsLongest h =
    let recent = trim_turns (turn_limit h) h.turns in
    let cut = trim_characters-IsSuffix h.character_limit (characters recent) recent in
    record {
      is_end = IsSuffix-trans _ recent h.turns cut (trim_turns-IsSuffix (turn_limit h) h.turns);
      within_turns =
          omega
            (arith, IsSuffix-length-le _ recent cut, length-trim_turns-le (turn_limit h) h.turns);
      within_characters = characters-trim_characters-le h.character_limit recent;
      longest = λ s e n c.
          trim_characters_longest h.character_limit s recent
            (trim_turns_longest (turn_limit h) s h.turns e n) c;
    }

abbrev pub turn : String → String → ConversationTurn
turn user assistant = record { user = user; assistant = assistant }

record_turn-trim :
    (h : ConversationHistory) (user assistant : String) {h' : ConversationHistory}
    → record_turn h user assistant ≡ ok h'
    → h' ≡ trim (record h { turns = h.turns ++ turn user assistant ∷ [] })
unfolding record_turn
record_turn-trim h user assistant e = ground arith

-- A turn that is recorded without an error leaves the limits and the mode as they were, and
-- keeps exactly the longest run of most recent turns, the new one last, that has at most as many
-- turns and as many characters as the limits in force allow.
pub record_turn-IsLongest :
    (h : ConversationHistory) (user assistant : String) {h' : ConversationHistory}
    → record_turn h user assistant ≡ ok h'
    → IsLongest (turn_limit h) h.character_limit (h.turns ++ turn user assistant ∷ []) h'.turns
      × (h' ≡ record h { turns = h'.turns })
unfolding turn_limit trim
record_turn-IsLongest h user assistant e =
    let added = record h { turns = h.turns ++ turn user assistant ∷ [] } in
    rw (record_turn-trim h user assistant e) (trim-IsLongest added, refl)

-- What a caller may do with a history; a `ValueError` of `record` leaves it as it was.
pub data Operation : Type 0 where
  records : String → String → Operation
  sets_continuous : Bool → Operation
  clears : Operation

abbrev pub settle :
    ConversationHistory → Result HistoryError ConversationHistory → ConversationHistory
settle h (ok h') = h'
settle h (err _) = h

pub step : ConversationHistory → Operation → ConversationHistory
step h (records user assistant) = settle h (record_turn h user assistant)
step h (sets_continuous enabled) = set_continuous h enabled
step h clears = clear h

pub operate : ConversationHistory → List Operation → ConversationHistory
operate h [] = h
operate h (op ∷ ops) = operate (step h op) ops

pub record IsBounded (h : ConversationHistory) : Type 0 where
  pub few_turns : length h.turns ≤ turn_limit h
  pub few_characters : characters h.turns ≤ h.character_limit
  pub ready_le : h.ready_turn_limit ≤ h.continuous_turn_limit
  pub at_most : h.continuous_turn_limit ≤ 100

module _ (h : ConversationHistory) (r : h.ready_turn_limit ≤ h.continuous_turn_limit)
    (c : h.continuous_turn_limit ≤ 100) where
  trim-IsBounded : IsBounded (trim h)
  unfolding trim turn_limit
  trim-IsBounded =
      let longest = trim-IsLongest h in
      record {
        few_turns = longest.within_turns;
        few_characters = longest.within_characters;
        ready_le = r;
        at_most = c;
      }

settle-IsBounded :
    (h : ConversationHistory) (r : Result HistoryError ConversationHistory)
    → IsBounded h
    → ((h' : ConversationHistory) → r ≡ ok h' → IsBounded h')
    → IsBounded (settle h r)
settle-IsBounded h (ok h') b recorded = recorded h' refl
settle-IsBounded h (err e) b recorded = b

step-IsBounded : (h : ConversationHistory) (op : Operation) → IsBounded h → IsBounded (step h op)
unfolding step
step-IsBounded h (records user assistant) b =
    settle-IsBounded h (record_turn h user assistant) b
      λ h' e. rw (record_turn-trim h user assistant e) (trim-IsBounded _ b.ready_le b.at_most)
step-IsBounded h (sets_continuous enabled) b =
    unfold set_continuous in trim-IsBounded _ b.ready_le b.at_most
step-IsBounded h clears b = unfold clear turn_limit characters in ground arith

-- From a bounded history, whatever is recorded, cleared or switched, in any order, the turns
-- kept stay within the turn limit in force, within the character limit, and at most 100.
pub operate-IsBounded :
    (h : ConversationHistory) (ops : List Operation) → IsBounded h → IsBounded (operate h ops)
unfolding operate
operate-IsBounded h [] b = b
operate-IsBounded h (op ∷ ops) b = operate-IsBounded (step h op) ops (step-IsBounded h op b)

-- The history that `__init__` makes is bounded.
pub new_history-IsBounded :
    (ready continuous limit : ℕ) {h : ConversationHistory}
    → new_history ready continuous limit ≡ ok h
    → IsBounded h
unfolding new_history characters turn_limit
new_history-IsBounded ready continuous limit e = ground arith
