-- ===== src/Chat/Turn/Effects.antt =====
-- What one turn of ron/chat.py shows, delivers and records.
use mathlib.Core.Path.{ap₂}
use mathlib.Core.List.{append-nil}
use ron_personal_assistant.Prelude.{
  ℕ, ◌≤◌, String, count, ◌≡◌, ◌≢◌, refl, ap, ◌∙◌, Bool, true, false, ◌||◌, not, Option, List, [],
  ◌∷◌, ◌++◌, arith, ltb, if◌then◌else◌, is_truthy, strip, Result, ok, err,
}
use ron_personal_assistant.Core.{FaceExpression, speaking, thinking, error, idle}
use ron_personal_assistant.Chat.History.{
  ConversationHistory, HistoryError, Message, record_turn, turn_limit,
}
use ron_personal_assistant.Chat.History.Trim.{turn, IsLongest, record_turn-IsLongest}
use ron_personal_assistant.Chat.Turn.{
  ChatSettings, ChatError, unrecorded, Effect, shows, emits, Stream, deliver, request, settle_reply,
  closing, respond,
}

abbrev pub faces : List Effect → List FaceExpression
faces [] = []
faces (shows expression ∷ effects) = expression ∷ faces effects
faces (emits _ ∷ effects) = faces effects

abbrev pub emitted : List Effect → List String
emitted [] = []
emitted (shows _ ∷ effects) = emitted effects
emitted (emits chunk ∷ effects) = chunk ∷ emitted effects

faces-append : (xs ys : List Effect) → faces (xs ++ ys) ≡ faces xs ++ faces ys
faces-append [] ys = refl
faces-append (shows e ∷ xs) ys = cc (faces-append xs ys)
faces-append (emits c ∷ xs) ys = faces-append xs ys

emitted-append : (xs ys : List Effect) → emitted (xs ++ ys) ≡ emitted xs ++ emitted ys
emitted-append [] ys = refl
emitted-append (shows e ∷ xs) ys = emitted-append xs ys
emitted-append (emits c ∷ xs) ys = cc (emitted-append xs ys)

-- SPEAKING is shown with the first chunk of a text reply, and not again.
abbrev pub speaking_faces : Bool → List String → List FaceExpression
speaking_faces quiet [] = []
speaking_faces quiet (_ ∷ _) = if quiet then [] else speaking ∷ []

quiet_faces : (chunks : List String) → speaking_faces true chunks ≡ []
quiet_faces [] = refl
quiet_faces (_ ∷ _) = refl

faces-deliver :
    (spoken listening now : Bool) (chunks : List String)
    → faces (deliver spoken listening now chunks) ≡ speaking_faces (now || spoken) chunks
unfolding deliver
faces-deliver spoken listening now [] = refl
faces-deliver spoken listening now (chunk ∷ chunks) =
    ground (arith, faces-deliver spoken listening (now || not spoken) chunks, quiet_faces chunks)

emitted-deliver :
    (spoken listening now : Bool) (chunks : List String)
    → emitted (deliver spoken listening now chunks) ≡ (if listening then chunks else [])
unfolding deliver
emitted-deliver spoken listening now [] = ground arith
emitted-deliver spoken listening now (chunk ∷ chunks) =
    ground (arith, emitted-deliver spoken listening (now || not spoken) chunks)

module _ (settings : ChatSettings) (provider : Option (String → Result String String))
    (stream_chat : List Message → ℕ → Stream) where
  abbrev pub stream_of : ConversationHistory → String → Bool → Stream
  stream_of h prompt spoken =
      stream_chat (request settings provider stream_chat h spoken (strip prompt))
        (if spoken then settings.voice_max_output_tokens else settings.max_output_tokens)

  accepted :
      (h : ConversationHistory) (prompt : String) (listening spoken : Bool)
      → is_truthy (strip prompt) ≡ true
      → count (strip prompt) ≤ settings.max_input_characters
      → let result = settle_reply h (strip prompt) (stream_of h prompt spoken).outcome in
        respond settings provider stream_chat h prompt listening spoken ≡ (
          result,
          shows thinking
              ∷ (deliver spoken listening false (stream_of h prompt spoken).chunks
                  ++ closing result),
        )
  unfolding respond
  accepted h prompt listening spoken t c =
      let fits : ltb settings.max_input_characters (count (strip prompt)) ≡ false = ground arith in
      rw (t, fits)

  abbrev ending : Result ChatError (String × ConversationHistory) → List FaceExpression
  ending (ok _) = idle ∷ []
  ending (err _) = error ∷ idle ∷ []

  faces-closing :
      (r : Result ChatError (String × ConversationHistory))
      → (faces (closing r) ≡ ending r) × (emitted (closing r) ≡ [])
  faces-closing (ok _) = (refl, refl)
  faces-closing (err _) = (refl, refl)

  -- A turn whose stripped prompt is not empty and within the limit shows THINKING, then SPEAKING
  -- if a text reply has a chunk, then ERROR if the turn raises, and IDLE at the end; a listener
  -- gets the client's chunks, each once and in order.
  pub respond_effects :
      (h : ConversationHistory) (prompt : String) (listening spoken : Bool)
      → is_truthy (strip prompt) ≡ true
      → count (strip prompt) ≤ settings.max_input_characters
      → let (result, trace) = respond settings provider stream_chat h prompt listening spoken in
        let chunks = (stream_of h prompt spoken).chunks in
        (faces trace ≡ thinking ∷ (speaking_faces spoken chunks ++ ending result))
        × (emitted trace ≡ (if listening then chunks else []))
  respond_effects h prompt listening spoken t c =
      let stream = stream_of h prompt spoken in
      let result = settle_reply h (strip prompt) stream.outcome in
      let delivered = deliver spoken listening false stream.chunks in
      rw (accepted h prompt listening spoken t c) (
        ap (λ r. thinking ∷ r)
            (faces-append delivered (closing result)
              ∙ ap₂ ◌++◌ (faces-deliver spoken listening false stream.chunks)
                  (faces-closing result).0),
        emitted-append delivered (closing result)
            ∙ ap₂ ◌++◌ (emitted-deliver spoken listening false stream.chunks)
                (faces-closing result).1
            ∙ append-nil _,
      )

  -- A turn never raises the `ValueError` of `record`: whatever the prompt and the client's
  -- stream, the two texts that it records are not empty.
  pub respond_always_records :
      (h : ConversationHistory) (prompt : String) (listening spoken : Bool) (e : HistoryError)
      → (respond settings provider stream_chat h prompt listening spoken).0 ≢ err (unrecorded e)
  unfolding respond settle_reply record_turn
  respond_always_records h prompt listening spoken e = ground arith

  respond-recorded :
      (h : ConversationHistory) (prompt : String) (listening spoken : Bool) {text : String}
      {h' : ConversationHistory}
      → (respond settings provider stream_chat h prompt listening spoken).0 ≡ ok (text, h')
      → ((stream_of h prompt spoken).outcome ≡ ok text)
        × (record_turn h (strip prompt) (strip text) ≡ ok h')
  unfolding respond settle_reply
  respond-recorded h prompt listening spoken e = ground arith

  -- A turn that returns a text has recorded its stripped prompt with the stripped text, within
  -- the limits, and the text is the client's.
  pub respond-IsLongest :
      (h : ConversationHistory) (prompt : String) (listening spoken : Bool) {text : String}
      {h' : ConversationHistory}
      → (respond settings provider stream_chat h prompt listening spoken).0 ≡ ok (text, h')
      → ((stream_of h prompt spoken).outcome ≡ ok text)
        × IsLongest
            (turn_limit h)
            h.character_limit
            (h.turns ++ turn (strip prompt) (strip text) ∷ [])
            h'.turns
  respond-IsLongest h prompt listening spoken e =
      let kept = respond-recorded h prompt listening spoken e in
      (kept.0, (record_turn-IsLongest h _ _ kept.1).0)
