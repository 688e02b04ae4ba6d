-- ===== src/Memory/Dialogue/Consent.antt =====
-- What a prompt may do to the memories, by ron/memory/intelligence.py: it forgets only what the user
-- was just asked about.
use ron_personal_assistant.Prelude.{
  ℕ, String, ◌≡◌, ◌⊎◌, inl, inr, refl, ap, Bool, true, false, not, Option, none, some, List, [],
  ◌∷◌, arith, if◌then◌else◌, mem_text, Bool-cases, Result, ok, err, strip, is_truthy,
}
use ron_personal_assistant.Memory.{MemoryRecord}
use ron_personal_assistant.Memory.Service.{
  MemoryService, Around, MemoryError, value_error, storage_failed, unknown_memory,
  checksum_mismatch, invalid_record, integrity_error, remember_explicit, find_for_forget, forget,
}
use ron_personal_assistant.Memory.Dialogue.{
  MemoryIntent, remembers, recalls, lists, forgets, ForgetState, MemoryIntelligence, Patterns,
  confirm_words, deny_words, cancel_words, numbered, closed, normalise, parse_memory_intent,
  remembered, found_question, chosen_question, offered, begin_forget, forgotten, chosen,
  candidate_at, answer_selected, answer_choice, answered, handle_pending_forget, handle_intent,
  unless_settled, handle,
}

-- A dialogue, and the reply that the user saw last.
pub record Talk : Type 0 where
  pub dialogue : MemoryIntelligence
  pub last : Option String

-- The reply asked whether this memory should be forgotten.
abbrev pub AsksAbout : MemoryRecord → Option String → Type 0
AsksAbout r last = (last ≡ some (found_question r)) ⊎ (last ≡ some (chosen_question r))

abbrev pub selected_of : Option ForgetState → Option MemoryRecord
selected_of none = none
selected_of (some state) = state.selected

-- A memory is selected only right after the question about it.
abbrev pub IsAsked : Option ForgetState → Option String → Type 0
IsAsked pending last = (r : MemoryRecord) → selected_of pending ≡ some r → AsksAbout r last

-- What the user sees of the reply to a prompt.
abbrev pub seen : Result MemoryError (Option String) → Option String
seen (ok reply) = reply
seen (err _) = none

nothing-IsAsked : (last : Option String) → IsAsked none last
nothing-IsAsked last r e = cc

module _ (around : Around) (patterns : Patterns) where
  -- The step from one prompt to the next.
  unfoldable pub talk : Talk → String → Talk
  talk t prompt =
      let (reply, m) = handle around patterns t.dialogue prompt in
      record { dialogue = m; last = seen reply }

  remembered_asks :
      (m : MemoryIntelligence) (r : Result MemoryError (MemoryRecord × Bool) × MemoryService)
      (last : Option String)
      → m.pending ≡ none
      → IsAsked (remembered around patterns m r).1.pending last
  remembered_asks m (err (value_error message), memory) last e r f = cc
  remembered_asks m (err (storage_failed x), memory) last e r f = cc
  remembered_asks m (err unknown_memory, memory) last e r f = cc
  remembered_asks m (err checksum_mismatch, memory) last e r f = cc
  remembered_asks m (err invalid_record, memory) last e r f = cc
  remembered_asks m (err integrity_error, memory) last e r f = cc
  remembered_asks m (ok (x, created), memory) last e r f = cc

  offered_asks :
      (m : MemoryIntelligence) (clean : String) (found : List MemoryRecord)
      → m.pending ≡ none
      → IsAsked
          (offered around patterns m clean found).1.pending
          (some (offered around patterns m clean found).0)
  offered_asks m clean [] e r f = cc
  offered_asks m clean (x ∷ []) e r f = inl (cc)
  offered_asks m clean (x ∷ y ∷ rest) e r f = cc

  begun_asks :
      (m : MemoryIntelligence) (value : String)
      → m.pending ≡ none
      → let (reply, m') = begin_forget around patterns m value in IsAsked m'.pending (some reply)
  unfolding begin_forget
  begun_asks m value e = elim (Bool-cases (not (is_truthy (strip value)))) [
    | inl empty ↦ rw empty (λ r f. cc)
    | inr given ↦
        rw given (offered_asks m (strip value) (find_for_forget around m.memory (strip value) 5) e)
  ]

  intent_asks :
      (m : MemoryIntelligence) (intent : Option MemoryIntent)
      → m.pending ≡ none
      → let (reply, m') = handle_intent around patterns m intent in IsAsked m'.pending (seen reply)
  unfolding handle_intent
  intent_asks m none e r f = cc
  intent_asks m (some (remembers value)) e r f =
      remembered_asks m (remember_explicit around m.memory value) _ e r f
  intent_asks m (some (recalls value)) e r f = cc
  intent_asks m (some lists) e r f = cc
  intent_asks m (some (forgets value)) e r f = begun_asks m value e r f

  module _ (prompt : String) where
    abbrev Settles : Option String × MemoryIntelligence → Type 0
    Settles x =
        let (reply, m') = unless_settled around patterns prompt x in IsAsked m'.pending (seen reply)

    either_Settles :
        (x y : Option String × MemoryIntelligence) (b : Bool)
        → Settles x
        → Settles y
        → Settles (if b then x else y)
    either_Settles x y true h k = h
    either_Settles x y false h k = k

    quiet_Settles : (m : MemoryIntelligence) → m.pending ≡ none → Settles (none, m)
    quiet_Settles m e = intent_asks m (parse_memory_intent around patterns prompt) e

    told_Settles :
        (m : MemoryIntelligence) (reply : String) → m.pending ≡ none → Settles (some reply, m)
    told_Settles m reply e r f = cc

    forgotten-Settles :
        (m : MemoryIntelligence) (selected : MemoryRecord)
        (x : Result MemoryError MemoryRecord × MemoryService)
        → Settles (forgotten around patterns m selected x)
    forgotten-Settles m selected (ok _, memory) r f = cc
    forgotten-Settles m selected (err _, memory) r f = cc

    chosen-Settles :
        (m : MemoryIntelligence) (candidates : List MemoryRecord) (o : Option MemoryRecord)
        → selected_of m.pending ≡ none
        → Settles (chosen around patterns m candidates o)
    chosen-Settles m candidates none e r f = cc
    chosen-Settles m candidates (some x) e r f = inr (cc)

    choice_Settles :
        (m : MemoryIntelligence) (candidates : List MemoryRecord) (clean : String) (o : Option ℕ)
        → selected_of m.pending ≡ none
        → Settles (numbered around patterns m candidates o)
    choice_Settles m candidates clean none e = quiet_Settles (closed around patterns m) refl
    choice_Settles m candidates clean (some n) e =
        chosen-Settles m candidates (candidate_at around patterns candidates n) e

    answered-Settles :
        (m : MemoryIntelligence) (candidates : List MemoryRecord) (selected : Option MemoryRecord)
        (clean : String)
        → selected_of m.pending ≡ selected
        → Settles (answered around patterns m candidates selected clean)
    unfolding answer_selected answer_choice
    answered-Settles m candidates none clean e =
        choice_Settles m candidates clean (patterns.number clean) e
    answered-Settles m candidates (some x) clean e =
        either_Settles _ _ (mem_text clean confirm_words)
          (forgotten-Settles m x (forget around m.memory x.memory_id))
          (either_Settles _ _ (mem_text clean deny_words)
            (told_Settles (closed around patterns m) _ refl)
            (quiet_Settles (closed around patterns m) refl))

    pending_Settles :
        (m : MemoryIntelligence) (pending : Option ForgetState)
        → m.pending ≡ pending
        → Settles (handle_pending_forget around patterns m prompt pending)
    unfolding handle_pending_forget
    pending_Settles m none e = quiet_Settles m e
    pending_Settles m (some state) e =
        either_Settles _ _ (mem_text (normalise around.db prompt) cancel_words)
          (told_Settles (closed around patterns m) _ refl)
          (answered-Settles m state.candidates state.selected (normalise around.db prompt)
            (ap selected_of e))

  handle_asks :
      (m : MemoryIntelligence) (prompt : String)
      → let (reply, m') = handle around patterns m prompt in IsAsked m'.pending (seen reply)
  unfolding handle
  handle_asks m prompt = pending_Settles prompt m m.pending refl

  -- What a prompt for the memory does to the memories: nothing, or it stores the value that it asks to
  -- remember.
  abbrev pub Stores : Option MemoryIntent → MemoryService → MemoryService → Type 0
  Stores intent before after =
      (after ≡ before)
      ⊎ ((value : String) × (intent ≡ some (remembers value))
          × (after ≡ (remember_explicit around before value).1))

  remembered_memory :
      (m : MemoryIntelligence) (x : Result MemoryError (MemoryRecord × Bool) × MemoryService)
      → (remembered around patterns m x).1.memory ≡ x.1
  remembered_memory m (err (value_error message), memory) = refl
  remembered_memory m (err (storage_failed e), memory) = refl
  remembered_memory m (err unknown_memory, memory) = refl
  remembered_memory m (err checksum_mismatch, memory) = refl
  remembered_memory m (err invalid_record, memory) = refl
  remembered_memory m (err integrity_error, memory) = refl
  remembered_memory m (ok _, memory) = refl

  offered_memory :
      (m : MemoryIntelligence) (clean : String) (found : List MemoryRecord)
      → (offered around patterns m clean found).1.memory ≡ m.memory
  offered_memory m clean [] = refl
  offered_memory m clean (x ∷ []) = refl
  offered_memory m clean (x ∷ y ∷ rest) = refl

  intent_Stores :
      (m : MemoryIntelligence) (intent : Option MemoryIntent)
      → Stores intent m.memory (handle_intent around patterns m intent).1.memory
  unfolding handle_intent begin_forget
  intent_Stores m none = inl refl
  intent_Stores m (some (remembers value)) = inr (value, refl, remembered_memory m _)
  intent_Stores m (some (recalls value)) = inl refl
  intent_Stores m (some lists) = inl refl
  intent_Stores m (some (forgets value)) = inl (
      ground
        (arith, offered_memory m (strip value) (find_for_forget around m.memory (strip value) 5)))

  -- The answer to a pending question: the memory that it forgets was selected, and it confirms.
  abbrev pub Forgets : MemoryIntelligence → String → MemoryService → Type 0
  Forgets m prompt after =
      (r : MemoryRecord) × (selected_of m.pending ≡ some r)
      × (mem_text (normalise around.db prompt) confirm_words ≡ true)
      × (mem_text (normalise around.db prompt) cancel_words ≡ false)
      × (after ≡ (forget around m.memory r.memory_id).1)

  module _ (prompt : String) (m : MemoryIntelligence) where
    abbrev Does : Option String × MemoryIntelligence → Type 0
    Does x =
        let after = (unless_settled around patterns prompt x).1.memory in
        Stores (parse_memory_intent around patterns prompt) m.memory after ⊎ Forgets m prompt after

    quiet_Does : (pending : Option ForgetState) → Does (none, record m { pending = pending })
    quiet_Does pending = inl (
        intent_Stores (record m { pending = pending }) (parse_memory_intent around patterns prompt))

    either_Does :
        (x y : Option String × MemoryIntelligence) (b : Bool)
        → (b ≡ true → Does x)
        → (b ≡ false → Does y)
        → Does (if b then x else y)
    either_Does x y true h k = h refl
    either_Does x y false h k = k refl

    chosen-Does :
        (candidates : List MemoryRecord) (o : Option MemoryRecord)
        → Does (chosen around patterns m candidates o)
    chosen-Does candidates none = inl (inl refl)
    chosen-Does candidates (some x) = inl (inl refl)

    numbered-Does :
        (candidates : List MemoryRecord) (o : Option ℕ)
        → Does (numbered around patterns m candidates o)
    numbered-Does candidates none = quiet_Does none
    numbered-Does candidates (some n) =
        chosen-Does candidates (candidate_at around patterns candidates n)

    forgotten-Does :
        (selected : MemoryRecord)
        → selected_of m.pending ≡ some selected
        → mem_text (normalise around.db prompt) confirm_words ≡ true
        → mem_text (normalise around.db prompt) cancel_words ≡ false
        → (x : Result MemoryError MemoryRecord × MemoryService)
        → x.1 ≡ (forget around m.memory selected.memory_id).1
        → Does (forgotten around patterns m selected x)
    forgotten-Does selected e yes_said not_cancel (ok _, memory) f =
        inr (selected, e, yes_said, not_cancel, f)
    forgotten-Does selected e yes_said not_cancel (err _, memory) f =
        inr (selected, e, yes_said, not_cancel, f)

    answered-Does :
        (candidates : List MemoryRecord) (selected : Option MemoryRecord)
        → selected_of m.pending ≡ selected
        → mem_text (normalise around.db prompt) cancel_words ≡ false
        → Does (answered around patterns m candidates selected (normalise around.db prompt))
    unfolding answer_selected answer_choice
    answered-Does candidates none e not_cancel =
        numbered-Does candidates (patterns.number (normalise around.db prompt))
    answered-Does candidates (some x) e not_cancel =
        either_Does _ _ (mem_text (normalise around.db prompt) confirm_words)
          (λ confirms.
            forgotten-Does x e confirms not_cancel (forget around m.memory x.memory_id) refl)
          (λ other.
            either_Does (some "Okay — I kept the memory.", closed around patterns m)
              (none, closed around patterns m) (mem_text (normalise around.db prompt) deny_words)
              (λ d. inl (inl refl)) (λ d. quiet_Does none))

    pending_Does :
        (pending : Option ForgetState)
        → m.pending ≡ pending
        → Does (handle_pending_forget around patterns m prompt pending)
    unfolding handle_pending_forget
    pending_Does none e = quiet_Does m.pending
    pending_Does (some state) e =
        either_Does _ _ (mem_text (normalise around.db prompt) cancel_words) (λ c. inl (inl refl))
          (λ other. answered-Does state.candidates state.selected (ap selected_of e) other)

-- What happens to the memory before a prompt: other prompts, and changes by others, which leave any
-- memories.
pub data Event : Type 0 where
  says : Around → Patterns → String → Event
  changes : MemoryService → Event

unfoldable pub listen : Talk → List Event → Talk
listen t [] = t
listen t (says around patterns prompt ∷ rest) = listen (talk around patterns t prompt) rest
listen t (changes memory ∷ rest) =
    listen (record t { dialogue = record t.dialogue { memory = memory } }) rest

abbrev pub new_talk : MemoryService → Talk
new_talk memory = record { dialogue = record { memory = memory; pending = none }; last = none }

listen_asks :
    (t : Talk) (events : List Event)
    → IsAsked t.dialogue.pending t.last
    → IsAsked (listen t events).dialogue.pending (listen t events).last
unfolding listen talk
listen_asks t [] h = h
listen_asks t (says around patterns prompt ∷ rest) h =
    listen_asks (talk around patterns t prompt) rest (handle_asks around patterns t.dialogue prompt)
listen_asks t (changes memory ∷ rest) h =
    listen_asks (record t { dialogue = record t.dialogue { memory = memory } }) rest h

-- After any prompts, and whatever others do to the memories meanwhile, the next prompt leaves the
-- memories as they are, or is read as a request to remember a value and stores exactly this value, or
-- forgets exactly one memory: then the reply that the user saw last was the question whether to forget
-- that memory, with its summary, and the prompt is one of the words of confirmation, and none of
-- cancellation.
pub forgets_with_consent :
    (memory : MemoryService) (events : List Event) (around : Around) (patterns : Patterns)
    (prompt : String)
    → let t = listen (new_talk memory) events in
      let before = t.dialogue.memory in
      let after = (handle around patterns t.dialogue prompt).1.memory in
      (after ≡ before)
      ⊎ ((value : String) × (parse_memory_intent around patterns prompt ≡ some (remembers value))
          × (after ≡ (remember_explicit around before value).1))
      ⊎ ((r : MemoryRecord) × AsksAbout r t.last
          × (mem_text (normalise around.db prompt) confirm_words ≡ true)
          × (mem_text (normalise around.db prompt) cancel_words ≡ false)
          × (after ≡ (forget around before r.memory_id).1))
unfolding handle
forgets_with_consent memory events around patterns prompt =
    let t = listen (new_talk memory) events in
    elim (pending_Does around patterns prompt t.dialogue t.dialogue.pending refl) [
      | inl (inl same) ↦ inl same
      | inl (inr stored) ↦ inr (inl stored)
      | inr (r, selected, confirms, not_cancel, e) ↦ inr (
          inr (
            r,
            listen_asks (new_talk memory) events (nothing-IsAsked none) r selected,
            confirms,
            not_cancel,
            e,
          ))
    ]
