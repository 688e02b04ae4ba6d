-- ===== src/Ai/Hybrid.antt =====
-- ron/ai/hybrid_client.py: `HybridAIClient`, over two clients that are arguments. A listener raises no
-- exception.
pub mod Provenance
mod Tests
use ron_personal_assistant.Prelude.{
  String, Bool, true, false, ◌||◌, Option, none, some, List, [], ◌∷◌, ◌++◌, if◌then◌else◌,
  is_truthy, f_string, map, Result, ok, err,
}

-- What a client raises: the classes of ron/ai/errors.py that the code tells apart, by name where it
-- shows the name, or any other exception.
pub data Raised : Type 0 where
  inference_cancelled : Raised
  ai_connection_error : String → Raised
  other_ai_error : String → Raised
  other_exception : String → Raised

-- One call of a client: the tokens that it delivered, and how it ended.
pub record Call : Type 0 where
  pub tokens : List String
  pub outcome : Result Raised String

pub record AiClient (Request : Type 0) : Type 0 where
  pub provider_label : String
  pub stream_chat : Request → Call

-- What is seen of a turn, in order.
pub data Event : Type 0 where
  asks_primary asks_fallback : Event
  hears : String → Event

pub record HybridAiClient (Request : Type 0) : Type 0 where
  pub primary : AiClient Request
  pub fallback : AiClient Request
  pub last_provider : String

-- The flag of `receive` after some tokens.
unfoldable pub visible_output : Bool → List String → Bool
visible_output visible [] = visible
visible_output visible (token ∷ tokens) = visible_output (visible || is_truthy token) tokens

abbrev pub heard : Bool → List String → List Event
heard listening tokens = if listening then map hears tokens else []

-- The class name in "could not start (…)".
abbrev pub class_name : Raised → String
class_name inference_cancelled = "InferenceCancelled"
class_name (ai_connection_error name) = name
class_name (other_ai_error name) = name
class_name (other_exception name) = name

abbrev pub gave_up : Raised → Raised
gave_up error = ai_connection_error (
    f_string (
      "Cloud AI was unavailable and the local fallback could not start ("
      ∷ class_name error
      ∷ ")."
      ∷ []))

module _ {Request : Type 0} where
  -- `__init__`
  unfoldable pub new_client : AiClient Request → AiClient Request → HybridAiClient Request
  new_client primary fallback = record {
    primary = primary;
    fallback = fallback;
    last_provider = primary.provider_label;
  }

  unfoldable pub provider_label : HybridAiClient Request → String
  provider_label h = f_string (h.last_provider ∷ "; local fallback available" ∷ [])

  -- The end of the call of the fallback: every `AIError` becomes a connection error.
  unfoldable pub settle_fallback :
      HybridAiClient Request → Result Raised String → Result Raised String × HybridAiClient Request
  settle_fallback h (ok text) = (
    ok text,
    record h { last_provider = f_string (h.fallback.provider_label ∷ " (fallback in use)" ∷ []) },
  )
  settle_fallback h (err (other_exception name)) = (err (other_exception name), h)
  settle_fallback h (err inference_cancelled) = (err (gave_up inference_cancelled), h)
  settle_fallback h (err (ai_connection_error name)) = (err (gave_up (ai_connection_error name)), h)
  settle_fallback h (err (other_ai_error name)) = (err (gave_up (other_ai_error name)), h)

  unfoldable pub try_fallback :
      HybridAiClient Request
      → Request
      → Bool
      → (Result Raised String × HybridAiClient Request) × List Event
  unfolding settle_fallback
  try_fallback h request listening =
      let call = h.fallback.stream_chat request in
      (settle_fallback h call.outcome, asks_fallback ∷ heard listening call.tokens)

  -- The `except` clauses behind the call of the primary.
  unfoldable pub settle_primary :
      HybridAiClient Request
      → Request
      → Bool
      → Bool
      → Result Raised String
      → (Result Raised String × HybridAiClient Request) × List Event
  settle_primary h request listening visible (ok text) =
      ((ok text, record h { last_provider = h.primary.provider_label }), [])
  settle_primary h request listening visible (err (ai_connection_error name)) =
      if visible
      then ((err (ai_connection_error name), h), [])
      else try_fallback h request listening
  settle_primary h request listening visible (err inference_cancelled) =
      ((err inference_cancelled, h), [])
  settle_primary h request listening visible (err (other_ai_error name)) =
      ((err (other_ai_error name), h), [])
  settle_primary h request listening visible (err (other_exception name)) =
      ((err (other_exception name), h), [])

  -- `stream_chat`
  unfoldable pub stream_chat :
      HybridAiClient Request
      → Request
      → Bool
      → (Result Raised String × HybridAiClient Request) × List Event
  unfolding settle_primary
  stream_chat h request listening =
      let call = h.primary.stream_chat request in
      let (turn, events) =
        settle_primary h request listening (visible_output false call.tokens) call.outcome in
      (turn, asks_primary ∷ heard listening call.tokens ++ events)
