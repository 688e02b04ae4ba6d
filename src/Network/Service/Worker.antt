-- ===== src/Network/Service/Worker.antt =====
-- The start, the stop and the worker of ron/network/service.py, and all its threads together.
use ron_personal_assistant.Prelude.{
  ℕ, ◌+◌, String, Bool, true, false, ◌&&◌, ◌||◌, not, Option, none, some, List, [], ◌∷◌, leb,
  if◌then◌else◌, is_truthy, str_eq, Result, ok, err,
}
use ron_personal_assistant.Network.Devices.{
  DeviceConnectionState, degraded, offline, trusted, RonDevice, new_device, DeviceError,
  all_devices, no_presence,
}
use ron_personal_assistant.Network.Service.{
  DiscoveryReply, NetworkSettings, NetworkService, Place, looking, waiting, ended, ageing,
  discovering, noting, same_state, set_network_available, presence, registered, Connection,
  note_device_connected, note_discovery, note_device_heartbeat, note_device_disconnected,
  mark_unpaired, publish_next,
}

-- The devices that `__init__` registers.
abbrev pub brain : RonDevice
brain = record (new_device "ron-brain" "Ron Brain" "brain") {
  trust_state = trusted;
  capabilities = "ai" ∷ "voice" ∷ "agent" ∷ "network" ∷ [];
}

abbrev pub manual_face : String → ℕ → RonDevice
manual_face host port = record (new_device "ron-face" "Ron Face" "display") {
  ip_address = some host;
  port = some port;
  trust_state = trusted;
  capabilities = "face" ∷ "quick_actions" ∷ [];
  metadata = ("source", "manual") ∷ [];
}

abbrev pub truthy : Option String → Option String
truthy none = none
truthy (some text) = if is_truthy text then some text else none

abbrev pub bare : NetworkSettings → NetworkService
bare settings = record {
  settings = settings;
  registry = [];
  stop_event = false;
  wake_event = false;
  started = false;
  available = false;
  last_discovery = 0;
  place = ended;
  made = [];
  unpublished = [];
  published = [];
}

abbrev pub with_face :
    Option String → ℕ → NetworkService → Result DeviceError (Unit {0}) × NetworkService
with_face none port m = (ok tt, m)
with_face (some host) port m = registered m (manual_face host port) (λ m. (ok tt, m))

-- `__init__`
unfoldable pub new_service : NetworkSettings → NetworkService
new_service settings =
    (registered (bare settings) brain (with_face (truthy settings.face_host) settings.face_port)).1

pub data StartError : Type 0 where
  bad_device : DeviceError → StartError
  no_thread : StartError

-- The thread of the worker, which may fail to start.
unfoldable pub launched :
    Bool
    → ℕ
    → Result DeviceError RonDevice × NetworkService
    → Result StartError (Unit {0}) × NetworkService
launched starts now (err e, m) = (err (bad_device e), m)
launched starts now (ok _, m) =
    if starts
    then (ok tt, record m { place = looking })
    else (err no_thread, set_network_available (record m { started = false }) false now)

-- `start`
unfoldable pub start : NetworkService → Bool → ℕ → Result StartError (Unit {0}) × NetworkService
unfolding launched
start m starts now =
    if m.started || not m.settings.enabled
    then (ok tt, m)
    else let m = record m { stop_event = false; wake_event = false; started = true } in
      launched starts now (
        note_device_connected (set_network_available m true now) "ron-brain"
          (record {
            ip_address = none;
            port = none;
            device_type = "brain";
            friendly_name = some "Ron Brain";
            trust_state = trusted;
            capabilities = some ("ai" ∷ "voice" ∷ "agent" ∷ "network" ∷ []);
            metadata = some (("local", "True") ∷ []);
          })
          now)

-- `stop`; the worker is taken to end within the join's two seconds.
unfoldable pub stop : NetworkService → ℕ → NetworkService
stop m now =
    if not m.started
    then m
    else set_network_available
        (record m { stop_event = true; wake_event = true; started = false; place = ended }) false
        now

-- What the age of a device asks for: its state, and whether it counts as reachable.
unfoldable pub desired : NetworkSettings → ℕ → RonDevice → Option (DeviceConnectionState × Bool)
desired settings now device = elim device.last_seen [
  | none ↦ none
  | some at ↦
      if str_eq device.device_id "ron-brain"
      then none
      else if leb (at + settings.offline_after) now
      then some (offline, false)
      else if leb (at + settings.degraded_after) now
      then some (degraded, device.network_reachable)
      else none
]

abbrev pub aged :
    NetworkService
    → RonDevice
    → ℕ
    → Option (DeviceConnectionState × Bool)
    → Result DeviceError RonDevice × NetworkService
aged m device now none = (ok device, m)
aged m device now (some (state, reachable)) =
    if same_state device.connection_state state
    then (ok device, m)
    else presence m device.device_id
        (record no_presence {
          state = some state;
          network_reachable = some reachable;
          service_responsive = some false;
        })
        now

-- One round of the loop of `_age_devices`, over the copy of a device: the time when the loop began,
-- and the time now.
unfoldable pub age_device :
    NetworkService → RonDevice → ℕ → ℕ → Result DeviceError RonDevice × NetworkService
unfolding desired
age_device m device began now = aged m device now (desired m.settings began device)

-- How `discover_once` ends.
pub data Discovered : Type 0 where
  replies : List DiscoveryReply → Discovered
  os_error other_error : Discovered

-- An exception ends the worker.
abbrev pub go_on : ℕ → Place → Result DeviceError RonDevice × NetworkService → NetworkService
go_on now next (ok _, m) = record m { place = next }
go_on now next (err _, m) = set_network_available (record m { place = ended }) false now

-- The end of `_run_discovery`.
unfoldable pub run_discovery : NetworkService → Discovered → ℕ → NetworkService
run_discovery m (replies rs) now = record (set_network_available m true now) { place = noting rs }
run_discovery m os_error now = record (set_network_available m false now) { place = waiting }
run_discovery m other_error now = record m { place = waiting }

abbrev pub discovery_due : NetworkService → ℕ → Bool → NetworkService
discovery_due m began true = record m { last_discovery = began; place = discovering }
discovery_due m began false = record m { place = waiting }

-- One step of `_worker`, at a time, with what a discovery finds.
unfoldable pub work_at : NetworkService → ℕ → Discovered → Place → NetworkService
unfolding age_device run_discovery
work_at m now found looking =
    if m.stop_event
    then record m { place = ended }
    else record m { place = ageing now (all_devices m.registry) }
work_at m now found (ageing began (device ∷ rest)) =
    go_on now (ageing began rest) (age_device m device began now)
work_at m now found (ageing began []) =
    discovery_due m began
      (m.settings.discovery_enabled && leb (m.last_discovery + m.settings.discovery_interval) began)
work_at m now found discovering = run_discovery m found now
work_at m now found (noting (reply ∷ rest)) = record (note_discovery m reply now).1 {
  place = noting rest;
}
work_at m now found (noting []) = record m { place = waiting }
work_at m now found waiting = record m { wake_event = false; place = looking }
work_at m now found ended = m

pub data Action : Type 0 where
  starts : Bool → Action
  stops : Action
  connects : String → Connection → Action
  beats : String → Option (List (String × String)) → Action
  disconnects unpairs : String → Action
  discovers : DiscoveryReply → Action
  works : Discovered → Action
  -- one of the threads publishes the event that it has made
  publishes : ℕ → Action

unfoldable pub act : NetworkService → Action → ℕ → NetworkService
act m (starts launches) now = (start m launches now).1
act m stops now = stop m now
act m (connects device_id c) now = (note_device_connected m device_id c now).1
act m (beats device_id metadata) now = (note_device_heartbeat m device_id metadata now).1
act m (disconnects device_id) now = (note_device_disconnected m device_id now).1
act m (unpairs device_id) now = (mark_unpaired m device_id now).1
act m (discovers reply) now = (note_discovery m reply now).1
act m (works found) now = work_at m now found m.place
act m (publishes n) now = publish_next m n

-- Actions of any threads, each at its time.
unfoldable pub run : NetworkService → List (Action × ℕ) → NetworkService
run m [] = m
run m ((a, now) ∷ rest) = run (act m a now) rest
