-- ===== src/Memory/Dialogue/Tests.antt =====
-- A conversation about one memory, by ron/memory/intelligence.py: a test, and the witness.
use ron_personal_assistant.Prelude.{
  String, ◌≡◌, ◌⊎◌, refl, true, false, none, some, List, [], ◌∷◌, mem_text, strip, squeeze,
  is_space, if◌then◌else◌, str_eq,
}
use ron_personal_assistant.Prelude.Dict.{text_key, get, remove}
use ron_personal_assistant.Memory.{
  MemoryRecord, delete_memory, get_memory_by_prefix, search_rows, all_rows, order_by, insert_row,
  passes,
}
use ron_personal_assistant.Memory.Service.{remember_explicit, forget, find_for_forget}
use ron_personal_assistant.Memory.Service.Tests.{around, with_tea, tea}
use ron_personal_assistant.Memory.Dialogue.{
  remembers, Patterns, confirm_words, cancel_words, found_question, normalise, handle,
  handle_pending_forget, handle_intent, parse_memory_intent, begin_forget, answer_selected,
}
use ron_personal_assistant.Memory.Dialogue.Consent.{
  AsksAbout, talk, Event, says, listen, new_talk, forgets_with_consent,
}

abbrev pub patterns : Patterns
patterns = record {
  remember_value = λ text. none;
  recall_value = λ text. none;
  forget_value = λ text. if str_eq text "forget tea" then some "tea" else none;
  number = λ text. none;
}

abbrev asked : List Event
asked = says around patterns "forget tea" ∷ []

asks : (listen (new_talk with_tea) asked).last ≡ some (found_question tea)
unfolding listen talk handle handle_pending_forget handle_intent parse_memory_intent begin_forget
    find_for_forget get_memory_by_prefix search_rows all_rows order_by insert_row passes strip
    squeeze is_space
asks = refl

confirmed :
    (handle around patterns (listen (new_talk with_tea) asked).dialogue "yes").1.memory.catalog ≡ []
unfolding listen talk handle handle_pending_forget handle_intent parse_memory_intent begin_forget
    find_for_forget get_memory_by_prefix search_rows all_rows order_by insert_row passes strip
    squeeze is_space normalise answer_selected forget get delete_memory remove
confirmed = refl

forgets_with_consent_example :
    let t = listen (new_talk with_tea) asked in
    let before = t.dialogue.memory in
    let after = (handle around patterns t.dialogue "yes").1.memory in
    (after ≡ before)
    ⊎ ((value : String) × (parse_memory_intent around patterns "yes" ≡ some (remembers value))
        × (after ≡ (remember_explicit around before value).1))
    ⊎ ((r : MemoryRecord) × AsksAbout r t.last
        × (mem_text (normalise around.db "yes") confirm_words ≡ true)
        × (mem_text (normalise around.db "yes") cancel_words ≡ false)
        × (after ≡ (forget around before r.memory_id).1))
forgets_with_consent_example = forgets_with_consent with_tea asked around patterns "yes"
