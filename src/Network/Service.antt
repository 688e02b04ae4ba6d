-- ===== src/Network/Service.antt =====
-- ron/network/service.py: the devices that were seen on the network, and the events about them.
-- A call of the service is one step, but the events that it makes are published in steps of their own:
-- `update_presence` gives the registry's lock back before `_publish_transition` is called, so another
-- thread can come between. The worker is cut into the steps of its loop.
pub mod Worker
pub mod Branches
pub mod Log
pub mod History
pub mod Trust
pub mod Ageing
mod Tests
use ron_personal_assistant.Prelude.{
  ℕ, zero, suc, ◌+◌, String, Bool, true, false, ◌&&◌, ◌||◌, not, Option, none, some, List, [], ◌∷◌,
  ◌++◌, leb, ◌==◌, if◌then◌else◌, is_truthy, str_eq, Result, ok, err,
}
use ron_personal_assistant.Prelude.Dict.{Dict, text_key, get}
use ron_personal_assistant.Core.{
  EventType, device_connected, device_disconnected, device_reconnected, device_degraded,
  network_available, network_unavailable, RonEvent,
}
use ron_personal_assistant.Network.Devices.{
  DeviceConnectionState, online, degraded, offline, DeviceTrustState, trusted, unpaired, RonDevice,
  new_device, DeviceRegistry, DeviceError, register, find_device, all_devices, Presence,
  no_presence, update_presence, or_kept, put_all, given,
}

-- `DiscoveryReply` of ron/network/protocol.py
pub record DiscoveryReply : Type 0 where
  pub device_id : String
  pub friendly_name : String
  pub device_type : String
  pub ip_address : String
  pub port : ℕ
  pub capabilities : List String
  pub metadata : Dict String String

pub record NetworkSettings : Type 0 where
  pub enabled : Bool
  pub discovery_enabled : Bool
  pub discovery_interval : ℕ
  pub degraded_after : ℕ
  pub offline_after : ℕ
  pub face_host : Option String
  pub face_port : ℕ

-- Where the worker stands: its list of devices, or of replies, is what it has left to do.
pub data Place : Type 0 where
  looking waiting ended : Place
  ageing : ℕ → List RonDevice → Place
  discovering : Place
  noting : List DiscoveryReply → Place

pub record NetworkService : Type 0 where
  pub settings : NetworkSettings
  pub registry : DeviceRegistry
  pub stop_event : Bool
  pub wake_event : Bool
  pub started : Bool
  pub available : Bool
  pub last_discovery : ℕ
  pub place : Place
  -- the events that the calls have made, in the order of the registry's changes
  pub made : List RonEvent
  -- those of them that their threads have still to publish
  pub unpublished : List RonEvent
  -- what the coordinator was given
  pub published : List RonEvent

abbrev pub state_text : DeviceConnectionState → String
state_text DeviceConnectionState.unknown = "unknown"
state_text online = "online"
state_text degraded = "degraded"
state_text offline = "offline"

abbrev pub same_state : DeviceConnectionState → DeviceConnectionState → Bool
same_state DeviceConnectionState.unknown DeviceConnectionState.unknown = true
same_state online online = true
same_state degraded degraded = true
same_state offline offline = true
same_state _ _ = false

abbrev pub is_online : DeviceConnectionState → Bool
is_online online = true
is_online _ = false

abbrev pub same_bool : Bool → Bool → Bool
same_bool true b = b
same_bool false b = not b

-- The events of a call, before they are published.
abbrev pub announced : NetworkService → List RonEvent → NetworkService
announced m events = record m { made = m.made ++ events; unpublished = m.unpublished ++ events }

-- `_set_network_available`
unfoldable pub set_network_available : NetworkService → Bool → ℕ → NetworkService
set_network_available m available now =
    if same_bool m.available available
    then m
    else announced (record m { available = available })
        (record {
          type = if available then network_available else network_unavailable;
          payload = ("available", if available then "True" else "False") ∷ [];
          created_at = now;
        }
          ∷ [])

-- The type of the event about a new state, if there is one.
unfoldable pub transition : DeviceConnectionState → DeviceConnectionState → Option EventType
transition online degraded = some device_reconnected
transition online offline = some device_reconnected
transition online _ = some device_connected
transition degraded _ = some device_degraded
transition offline _ = some device_disconnected
transition DeviceConnectionState.unknown _ = none

unfoldable pub device_event : EventType → RonDevice → DeviceConnectionState → ℕ → RonEvent
device_event type device previous now = record {
  type = type;
  payload =
      ("device_id", device.device_id)
      ∷ ("friendly_name", device.friendly_name)
      ∷ ("device_type", device.device_type)
      ∷ ("state", state_text device.connection_state)
      ∷ ("previous_state", state_text previous)
      ∷ [];
  created_at = now;
}

-- `_publish_transition`: the event that it makes.
unfoldable pub transition_events : RonDevice → DeviceConnectionState → ℕ → List RonEvent
unfolding transition device_event
transition_events device previous now =
    if same_state device.connection_state previous
    then []
    else elim (transition device.connection_state previous) [
      | none ↦ []
      | some type ↦ device_event type device previous now ∷ []
    ]

abbrev pub transitioned :
    NetworkService
    → ℕ
    → Result DeviceError (RonDevice × DeviceConnectionState) × DeviceRegistry
    → Result DeviceError RonDevice × NetworkService
transitioned m now (err e, registry) = (err e, record m { registry = registry })
transitioned m now (ok (device, previous), registry) = (
  ok device,
  announced (record m { registry = registry }) (transition_events device previous now),
)

-- `update_presence`, then `_publish_transition` up to its call of the coordinator.
unfoldable pub presence :
    NetworkService → String → Presence → ℕ → Result DeviceError RonDevice × NetworkService
presence m device_id p now = transitioned m now (update_presence m.registry device_id p now)

abbrev pub after_register :
    {A : Type 0}
    → NetworkService
    → (NetworkService → Result DeviceError A × NetworkService)
    → Result DeviceError RonDevice × DeviceRegistry
    → Result DeviceError A × NetworkService
after_register m next (err e, registry) = (err e, record m { registry = registry })
after_register m next (ok _, registry) = next (record m { registry = registry })

-- `registry.register`, before what follows if it does not raise.
unfoldable pub registered :
    {A : Type 0}
    → NetworkService
    → RonDevice
    → (NetworkService → Result DeviceError A × NetworkService)
    → Result DeviceError A × NetworkService
registered m device next = after_register m next (register m.registry device)

-- The keyword arguments of `note_device_connected`.
pub record Connection : Type 0 where
  pub ip_address : Option String
  pub port : Option ℕ
  pub device_type : String
  pub friendly_name : Option String
  pub trust_state : DeviceTrustState
  pub capabilities : Option (List String)
  pub metadata : Option (Dict String String)

-- `note_device_connected`
unfoldable pub note_device_connected :
    NetworkService → String → Connection → ℕ → Result DeviceError RonDevice × NetworkService
note_device_connected m device_id c now =
    let m = if m.settings.enabled then set_network_available m true now else m in
    registered m
      (record (new_device device_id (or_kept (given c.friendly_name "") device_id) c.device_type) {
        ip_address = c.ip_address;
        port = c.port;
        trust_state = c.trust_state;
        capabilities = given c.capabilities [];
        metadata = given c.metadata [];
      })
      (λ m.
        presence m device_id
          (record {
            ip_address = c.ip_address;
            port = c.port;
            state = some online;
            trust_state = some c.trust_state;
            network_reachable = some true;
            service_responsive = some true;
            capabilities = c.capabilities;
            metadata = c.metadata;
            seen_at = some now;
          })
          now)

abbrev pub trust_of : Option RonDevice → DeviceTrustState
trust_of none = DeviceTrustState.unknown
trust_of (some device) = device.trust_state

abbrev responsive_of : Option RonDevice → Bool
responsive_of none = false
responsive_of (some device) = device.service_responsive

abbrev pub discovered_state : Option RonDevice → DeviceConnectionState
discovered_state none = degraded
discovered_state (some device) = if is_online device.connection_state then online else degraded

-- `note_discovery`, behind its look at the known device.
unfoldable pub note_reply :
    NetworkService
    → DiscoveryReply
    → Option RonDevice
    → ℕ
    → Result DeviceError RonDevice × NetworkService
note_reply m reply existing now =
    let metadata = put_all reply.metadata (("source", "discovery") ∷ []) in
    registered m
      (record (new_device reply.device_id reply.friendly_name reply.device_type) {
        ip_address = some reply.ip_address;
        port = some reply.port;
        trust_state = trust_of existing;
        capabilities = reply.capabilities;
        metadata = metadata;
      })
      (λ m.
        presence m reply.device_id
          (record {
            ip_address = some reply.ip_address;
            port = some reply.port;
            state = some (discovered_state existing);
            trust_state = some (trust_of existing);
            network_reachable = some true;
            service_responsive = some (responsive_of existing);
            capabilities = some reply.capabilities;
            metadata = some metadata;
            seen_at = some now;
          })
          now)

-- `self._wake_event.set()` after a call that did not raise
abbrev pub waking :
    {A : Type 0} → Result DeviceError A × NetworkService → Result DeviceError A × NetworkService
waking (ok a, m) = (ok a, record m { wake_event = true })
waking (err e, m) = (err e, m)

abbrev pub noted_discovery :
    NetworkService
    → DiscoveryReply
    → ℕ
    → Result DeviceError (Option RonDevice)
    → Result DeviceError RonDevice × NetworkService
noted_discovery m reply now (err e) = (err e, m)
noted_discovery m reply now (ok existing) = waking (note_reply m reply existing now)

-- `note_discovery`
unfoldable pub note_discovery :
    NetworkService → DiscoveryReply → ℕ → Result DeviceError RonDevice × NetworkService
note_discovery m reply now = noted_discovery m reply now (find_device m.registry reply.device_id)

-- `note_device_heartbeat`
unfoldable pub note_device_heartbeat :
    NetworkService
    → String
    → Option (Dict String String)
    → ℕ
    → Result DeviceError RonDevice × NetworkService
note_device_heartbeat m device_id metadata now =
    presence m device_id
      (record no_presence {
        state = some online;
        network_reachable = some true;
        service_responsive = some true;
        metadata = metadata;
        seen_at = some now;
      })
      now

-- `note_device_disconnected`
unfoldable pub note_device_disconnected :
    NetworkService → String → ℕ → Result DeviceError RonDevice × NetworkService
note_device_disconnected m device_id now = waking (
    presence m device_id
      (record no_presence { state = some degraded; service_responsive = some false }) now)

-- `mark_unpaired`
unfoldable pub mark_unpaired :
    NetworkService → String → ℕ → Result DeviceError RonDevice × NetworkService
mark_unpaired m device_id now =
    presence m device_id
      (record no_presence {
        state = some degraded;
        trust_state = some unpaired;
        service_responsive = some false;
      })
      now

-- The element at an index, and the others.
pub take_out : {A : Type 0} → ℕ → List A → Option (A × List A)
take_out n [] = none
take_out zero (x ∷ xs) = some (x, xs)
take_out (suc n) (x ∷ xs) = elim (take_out n xs) [
  | none ↦ none
  | some (y, rest) ↦ some (y, x ∷ rest)
]

abbrev pub delivered : NetworkService → Option (RonEvent × List RonEvent) → NetworkService
delivered m none = m
delivered m (some (event, rest)) = record m {
  unpublished = rest;
  published = m.published ++ event ∷ [];
}

-- `self.coordinator.publish`, by the thread whose event it is.
unfoldable pub publish_next : NetworkService → ℕ → NetworkService
unfolding take_out
publish_next m n = delivered m (take_out n m.unpublished)
