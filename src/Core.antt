-- ===== src/Core.antt =====
-- ron/core.py: the face expressions, the events, and the coordinator that routes them.
pub mod Delivery
mod Tests
use ron_personal_assistant.Prelude.{
  ℕ, String, Bool, true, false, ◌||◌, Option, none, some, List, [], ◌∷◌, ◌++◌, ◌==◌, if◌then◌else◌,
  Result, ok, err,
}
use ron_personal_assistant.Prelude.Dict.{Dict, nat_key, get, put}

pub data FaceExpression : Type 0 where
  idle listening thinking speaking happy confused error sleeping : FaceExpression

pub data EventType : Type 0 where
  face_expression speech_started speech_level speech_ended device_connected device_disconnected
        device_reconnected device_degraded network_available network_unavailable shutdown :
      EventType

-- The place of an event type, as the key of the table.
abbrev pub event_key : EventType → ℕ
event_key face_expression = 0
event_key speech_started = 1
event_key speech_level = 2
event_key speech_ended = 3
event_key device_connected = 4
event_key device_disconnected = 5
event_key device_reconnected = 6
event_key device_degraded = 7
event_key network_available = 8
event_key network_unavailable = 9
event_key shutdown = 10

-- An event; the payload is text here, since the coordinator only passes it on.
pub record RonEvent : Type 0 where
  pub type : EventType
  pub payload : List (String × String)
  pub created_at : ℕ

-- A handler is known by a number: the coordinator compares and calls handlers, and no more.
pub record Coordinator : Type 0 where
  pub handlers : Dict ℕ (List ℕ)

abbrev pub new_coordinator : Coordinator
new_coordinator = record { handlers = [] }

-- `self._handlers[event_type]`, of a `defaultdict(list)`
unfoldable pub handlers_of : Coordinator → EventType → List ℕ
handlers_of c event_type = elim (get c.handlers (event_key event_type)) [ none ↦ [] | some hs ↦ hs ]

abbrev pub is_handler : ℕ → List ℕ → Bool
is_handler h [] = false
is_handler h (x ∷ xs) = x == h || is_handler h xs

-- `subscribe`
unfoldable pub subscribe : Coordinator → EventType → ℕ → Coordinator
subscribe c event_type handler =
    let hs = handlers_of c event_type in
    record c {
      handlers =
          put c.handlers (event_key event_type)
            (if is_handler handler hs then hs else hs ++ handler ∷ []);
    }

-- `list.remove`, where a missing element changes nothing
unfoldable pub remove_first : ℕ → List ℕ → List ℕ
remove_first h [] = []
remove_first h (x ∷ xs) = let rest = remove_first h xs in if x == h then xs else x ∷ rest

-- `unsubscribe`
unfoldable pub unsubscribe : Coordinator → EventType → ℕ → Coordinator
unsubscribe c event_type handler = record c {
  handlers =
      put c.handlers (event_key event_type) (remove_first handler (handlers_of c event_type));
}

-- The calls that `publish` makes; a handler's exception is logged, and the next one is called.
unfoldable pub deliver :
    (ℕ → RonEvent → Result String (Unit {0})) → RonEvent → List ℕ → List (ℕ × RonEvent)
deliver react event [] = []
deliver react event (h ∷ hs) =
    let rest = deliver react event hs in
    elim (react h event) [ ok _ ↦ (h, event) ∷ rest | err _ ↦ (h, event) ∷ rest ]

-- `publish`
unfoldable pub publish :
    (ℕ → RonEvent → Result String (Unit {0})) → Coordinator → RonEvent → List (ℕ × RonEvent)
publish react c event = deliver react event (handlers_of c event.type)
