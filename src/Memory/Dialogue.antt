-- ===== src/Memory/Dialogue.antt =====
-- ron/memory/intelligence.py: what a prompt asks of the memory, and the question before it forgets.
-- The values that the patterns of `parse_memory_intent` match are arguments.
pub mod Consent
pub mod Tests
use Prim.Native.Char.{code}
use Prim.Native.String
use ron_personal_assistant.Prelude.{
  ℕ, zero, suc, ◌+◌, ◌-◌, String, Bool, true, false, ◌&&◌, ◌||◌, not, Option, none, some, List, [],
  ◌∷◌, ◌++◌, leb, ◌==◌, if◌then◌else◌, length, get_elem?, is_truthy, strip, rstrip, squeeze,
  take_text, f_string, join, decimal, mem_text, Result, ok, err,
}
use ron_personal_assistant.Memory.{MemoryRecord, RecalledMemory, kind_text, Texts}
use ron_personal_assistant.Memory.Service.{
  MemoryService, Around, MemoryError, value_error, remember_explicit, recall, recent_user_memories,
  find_for_forget, forget,
}

pub data MemoryIntent : Type 0 where
  remembers recalls : String → MemoryIntent
  lists : MemoryIntent
  forgets : String → MemoryIntent

pub record ForgetState : Type 0 where
  pub candidates : List MemoryRecord
  pub selected : Option MemoryRecord

pub record MemoryIntelligence : Type 0 where
  pub memory : MemoryService
  pub pending : Option ForgetState

-- What the first pattern of each family that matches captures, and the number of
-- `(?:forget\s+)?\d+`.
pub record Patterns : Type 0 where
  pub remember_value : String → Option String
  pub recall_value : String → Option String
  pub forget_value : String → Option String
  pub number : String → Option ℕ

abbrev list_patterns : List String
list_patterns =
    "what do you remember" ∷ "what do you remember?" ∷ "show memories" ∷ "show me memories"
    ∷ "list memories" ∷ "memory list" ∷ []

abbrev pub confirm_words : List String
confirm_words =
    "yes" ∷ "yes forget it" ∷ "yes, forget it" ∷ "confirm" ∷ "confirm forget" ∷ "delete it" ∷ []

abbrev pub deny_words : List String
deny_words = "no" ∷ "nope" ∷ "keep it" ∷ "dont forget it" ∷ "don't forget it" ∷ []

abbrev pub cancel_words : List String
cancel_words = "cancel" ∷ "never mind" ∷ "nevermind" ∷ "stop" ∷ []

-- `_normalise`
unfoldable pub normalise : Texts → String → String
normalise db value = squeeze (db.strip_marks (db.casefold (strip value)))

ends_with_question : String → Bool
ends_with_question String.[] = false
ends_with_question (String.◌∷◌ c String.[]) = code c == b'?'
ends_with_question (String.◌∷◌ c (String.◌∷◌ d s)) = ends_with_question (String.◌∷◌ d s)

but_last : String → String
but_last String.[] = ""
but_last (String.◌∷◌ c String.[]) = ""
but_last (String.◌∷◌ c (String.◌∷◌ d s)) = String.◌∷◌ c (but_last (String.◌∷◌ d s))

abbrev pub forget_question : String
forget_question = "Forgetting is permanent. Say “yes, forget it” to delete it, or “cancel”."

-- The question about the only candidate, and about the one that was chosen.
abbrev pub found_question : MemoryRecord → String
found_question r = f_string ("I found this memory: “" ∷ r.summary ∷ "”\n" ∷ forget_question ∷ [])

abbrev pub chosen_question : MemoryRecord → String
chosen_question r = f_string ("You chose: “" ∷ r.summary ∷ "”\n" ∷ forget_question ∷ [])

module _ (around : Around) (patterns : Patterns) where
  -- `parse_memory_intent`
  unfoldable pub parse_memory_intent : String → Option MemoryIntent
  unfolding ends_with_question but_last
  parse_memory_intent prompt =
      let clean = squeeze prompt in
      if not (is_truthy clean)
      then none
      else if mem_text (around.db.casefold clean) list_patterns
      then some lists
      else elim (patterns.remember_value clean) [
        | some captured ↦
            let value = strip captured in
            some (remembers (if ends_with_question value then rstrip (but_last value) else value))
        | none ↦ elim (patterns.recall_value clean) [
          | some value ↦ some (recalls (strip value))
          | none ↦ elim (patterns.forget_value clean) [
            | some value ↦ some (forgets (strip value))
            | none ↦ none
          ]
        ]
      ]

  abbrev is_intent : Option MemoryIntent → Bool
  is_intent none = false
  is_intent (some _) = true

  abbrev is_number : Option ℕ → Bool
  is_number none = false
  is_number (some _) = true

  abbrev answers_question : Option ForgetState → String → Bool
  answers_question none clean = false
  answers_question (some _) clean =
      mem_text clean cancel_words
      || mem_text clean confirm_words
      || mem_text clean deny_words
      || is_number (patterns.number clean)

  -- `claims_interaction`
  unfoldable pub claims_interaction : MemoryIntelligence → String → Bool
  claims_interaction m prompt =
      answers_question m.pending (normalise around.db prompt)
      || is_intent (parse_memory_intent prompt)

  abbrev Reply : Type 0
  Reply = Result MemoryError (Option String) × MemoryIntelligence

  -- `_remember`; any exception but a `ValueError` goes on to the caller.
  abbrev remembered :
      MemoryIntelligence → Result MemoryError (MemoryRecord × Bool) × MemoryService → Reply
  remembered m (err (value_error message), memory) =
      (ok (some message), record m { memory = memory })
  remembered m (err e, memory) = (err e, record m { memory = memory })
  remembered m (ok (r, created), memory) = (
    ok (
        some (
          if not created
          then f_string (
              "I already remember that. Its memory ID starts with "
              ∷ take_text 8 r.memory_id
              ∷ "."
              ∷ [])
          else if r.queued
          then f_string (
              "Got it — I'll remember that. External memory is offline, so the new "
              ∷ "memory is safely queued on this laptop until RON_STORAGE returns." ∷ [])
          else "Got it — I'll remember that.")),
    record m { memory = memory },
  )

  numbered_memories : ℕ → List RecalledMemory → List String
  numbered_memories index [] = []
  numbered_memories index (item ∷ items) =
      f_string (
        decimal index
        ∷ ". "
        ∷ item.content
        ∷ (if item.full_content_available
            then ""
            else " (summary only — external memory is offline)")
        ∷ [])
      ∷ numbered_memories (index + 1) items

  pub numbered_records : Bool → ℕ → List MemoryRecord → List String
  numbered_records kinds index [] = []
  numbered_records kinds index (r ∷ rs) =
      f_string (
        decimal index
        ∷ ". "
        ∷ r.summary
        ∷ " ["
        ∷ (if kinds then f_string (kind_text r.kind ∷ ", " ∷ []) else "")
        ∷ take_text 8 r.memory_id
        ∷ "]"
        ∷ [])
      ∷ numbered_records kinds (index + 1) rs

  -- `_list_recent`
  unfoldable pub list_recent : MemoryService → String
  unfolding numbered_records
  list_recent memory = elim (recent_user_memories around memory 8) [
    | [] ↦ "I don't have any durable user memories saved yet."
    | r ∷ rs ↦
        join "\n" ("Here are my most recent durable memories:" ∷ numbered_records true 1 (r ∷ rs))
  ]

  -- `_recall`
  unfoldable pub recalled : MemoryService → String → String
  unfolding numbered_memories
  recalled memory value =
      let clean = strip value in
      if not (is_truthy clean)
      then list_recent memory
      else elim (recall around memory clean 5 false) [
        | [] ↦ f_string ("I don't have a saved memory that matches “" ∷ clean ∷ "” yet." ∷ [])
        | item ∷ items ↦
            join "\n" ("I found these relevant memories:" ∷ numbered_memories 1 (item ∷ items))
      ]

  -- `_begin_forget`, from the candidates on.
  abbrev pub offered : MemoryIntelligence → String → List MemoryRecord → String × MemoryIntelligence
  offered m clean [] =
      (f_string ("I couldn't find a saved memory matching “" ∷ clean ∷ "”." ∷ []), m)
  offered m clean (r ∷ []) = (
    found_question r,
    record m { pending = some (record { candidates = r ∷ []; selected = some r }) },
  )
  offered m clean (r ∷ r' ∷ rs) = (
    join "\n" (
        "I found a few possible memories. Which one should I forget?"
        ∷ (numbered_records false 1 (r ∷ r' ∷ rs)
            ++ "Say “forget 2” (for example), or “cancel”." ∷ [])),
    record m { pending = some (record { candidates = r ∷ r' ∷ rs; selected = none }) },
  )

  -- `_begin_forget`
  unfoldable pub begin_forget : MemoryIntelligence → String → String × MemoryIntelligence
  unfolding numbered_records
  begin_forget m value =
      let clean = strip value in
      if not (is_truthy clean)
      then ("Tell me what memory you want me to forget.", m)
      else offered m clean (find_for_forget around m.memory clean 5)

  abbrev pub forgotten :
      MemoryIntelligence
      → MemoryRecord
      → Result MemoryError MemoryRecord × MemoryService
      → Option String × MemoryIntelligence
  forgotten m selected (err e, memory) =
      (some "That memory was already gone.", record { memory = memory; pending = none })
  forgotten m selected (ok _, memory) = (
    some (f_string ("Done — I permanently forgot: “" ∷ selected.summary ∷ "”" ∷ [])),
    record { memory = memory; pending = none },
  )

  abbrev pub closed : MemoryIntelligence → MemoryIntelligence
  closed m = record m { pending = none }

  -- The answer to "which one": `index` is the number that was said, less one.
  abbrev pub chosen :
      MemoryIntelligence
      → List MemoryRecord
      → Option MemoryRecord
      → Option String × MemoryIntelligence
  chosen m candidates none = (
    some (
        f_string
          ("Choose a number from 1 to " ∷ decimal (length candidates) ∷ ", or say “cancel”." ∷ [])),
    m,
  )
  chosen m candidates (some r) = (
    some (chosen_question r),
    record m { pending = some (record { candidates = candidates; selected = some r }) },
  )

  abbrev pub candidate_at : List MemoryRecord → ℕ → Option MemoryRecord
  candidate_at candidates zero = none
  candidate_at candidates (suc index) = get_elem? candidates index

  -- `_handle_pending_forget`, for the answer in its normal form: first where one is selected, then
  -- where one is to be chosen.
  unfoldable pub answer_selected :
      MemoryIntelligence → MemoryRecord → String → Option String × MemoryIntelligence
  answer_selected m selected clean =
      if mem_text clean confirm_words
      then forgotten m selected (forget around m.memory selected.memory_id)
      else if mem_text clean deny_words
      then (some "Okay — I kept the memory.", closed m)
      else (none, closed m)

  abbrev pub numbered :
      MemoryIntelligence → List MemoryRecord → Option ℕ → Option String × MemoryIntelligence
  numbered m candidates none = (none, closed m)
  numbered m candidates (some number) = chosen m candidates (candidate_at candidates number)

  unfoldable pub answer_choice :
      MemoryIntelligence → List MemoryRecord → String → Option String × MemoryIntelligence
  answer_choice m candidates clean = numbered m candidates (patterns.number clean)

  abbrev pub answered :
      MemoryIntelligence
      → List MemoryRecord
      → Option MemoryRecord
      → String
      → Option String × MemoryIntelligence
  answered m candidates none clean = answer_choice m candidates clean
  answered m candidates (some selected) clean = answer_selected m selected clean

  -- `_handle_pending_forget`
  unfoldable pub handle_pending_forget :
      MemoryIntelligence → String → Option ForgetState → Option String × MemoryIntelligence
  unfolding answer_selected answer_choice
  handle_pending_forget m prompt none = (none, m)
  handle_pending_forget m prompt (some state) =
      let clean = normalise around.db prompt in
      if mem_text clean cancel_words
      then (some "Okay — I didn't forget anything.", closed m)
      else answered m state.candidates state.selected clean

  -- `handle`, behind the pending question.
  unfoldable pub handle_intent : MemoryIntelligence → Option MemoryIntent → Reply
  unfolding begin_forget recalled list_recent
  handle_intent m none = (ok none, m)
  handle_intent m (some (remembers value)) = remembered m (remember_explicit around m.memory value)
  handle_intent m (some (recalls value)) = (ok (some (recalled m.memory value)), m)
  handle_intent m (some lists) = (ok (some (list_recent m.memory)), m)
  handle_intent m (some (forgets value)) =
      let (reply, m') = begin_forget m value in (ok (some reply), m')

  abbrev pub unless_settled : String → Option String × MemoryIntelligence → Reply
  unless_settled prompt (some reply, m) = (ok (some reply), m)
  unless_settled prompt (none, m) = handle_intent m (parse_memory_intent prompt)

  -- `handle`: the reply, if the prompt is one for the memory.
  unfoldable pub handle : MemoryIntelligence → String → Reply
  handle m prompt = unless_settled prompt (handle_pending_forget m prompt m.pending)
