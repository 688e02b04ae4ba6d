-- ===== src/Network/Service/Tests.antt =====
-- Small runs of the network service: tests, and the witnesses of its theorems.
use mathlib.Core.List.{Perm}
use ron_personal_assistant.Prelude.{
  ◌++◌, ℕ, ◌≡◌, ◌⊎◌, refl, true, false, none, some, List, [], ◌∷◌, ◌<◌, ◌+◌, arith, ok,
}
use ron_personal_assistant.Prelude.Dict.{text_key, get, put}
use ron_personal_assistant.Network.Devices.{
  register, update_presence, present, merged, known_or_new, DeviceConnectionState, online, degraded,
  trusted, RonDevice, new_device, normalise_device_id,
}
use ron_personal_assistant.Network.Service.{
  publish_next, transition_events, device_event, transition, note_device_connected,
  note_device_disconnected, set_network_available, registered, presence, DiscoveryReply,
  NetworkSettings, NetworkService, Connection, looking,
}
use ron_personal_assistant.Network.Service.Worker.{
  new_service, age_device, other_error, Action, starts, connects, beats, disconnects, unpairs,
  discovers, works, publishes, act, run,
}
use ron_personal_assistant.Network.Service.Log.{state_of, replay, heard}
use ron_personal_assistant.Network.Service.History.{events_tell_states}
use ron_personal_assistant.Network.Service.Trust.{IsTrusted, vouched, run-IsTrusted}
use ron_personal_assistant.Network.Service.Ageing.{ageing_postpones_offline}

normalised : normalise_device_id "  Ron-FACE.2 " ≡ ok "ron-face.2"
unfolding normalise_device_id
normalised = refl

abbrev settings : NetworkSettings
settings = record {
  enabled = true;
  discovery_enabled = true;
  discovery_interval = 10;
  degraded_after = 8;
  offline_after = 20;
  face_host = some "10.0.0.9";
  face_port = 8765;
}

abbrev tablet : DiscoveryReply
tablet = record {
  device_id = "Tablet";
  friendly_name = "Kitchen tablet";
  device_type = "display";
  ip_address = "10.0.0.7";
  port = 8765;
  capabilities = "face" ∷ [];
  metadata = [];
}

abbrev plugged_in : Connection
plugged_in = record {
  ip_address = some "10.0.0.7";
  port = some 8765;
  device_type = "display";
  friendly_name = none;
  trust_state = trusted;
  capabilities = none;
  metadata = none;
}

abbrev a_day : List (Action × ℕ)
a_day =
    (starts true, 1)
    ∷ (discovers tablet, 2)
    ∷ (connects " TABLET" plugged_in, 3)
    ∷ (unpairs "tablet", 4)
    ∷ (disconnects "tablet", 5)
    ∷ (beats "tablet" none, 6)
    ∷ (works other_error, 40)
    ∷ (works other_error, 40)
    ∷ (works other_error, 40)
    ∷ (works other_error, 41)
    ∷ (publishes 1, 42)
    ∷ (publishes 0, 42)
    ∷ []

events_tell_states_example :
    let m = run (new_service settings) a_day in
    (replay "tablet" DeviceConnectionState.unknown m.made
      ≡ some (state_of (get m.registry "tablet")))
    × Perm m.made (m.published ++ m.unpublished)
events_tell_states_example = events_tell_states settings a_day "tablet"

-- Two threads publish what they have made, the later one first: the published events do not fit.
abbrev overtaken : List (Action × ℕ)
overtaken =
    (connects "tablet" plugged_in, 3)
    ∷ (disconnects "tablet", 4)
    ∷ (publishes 2, 5)
    ∷ (publishes 1, 6)
    ∷ []

overtaken_misread :
    let m = run (new_service settings) overtaken in
    replay "tablet" DeviceConnectionState.unknown m.published ≡ none
unfolding run act new_service note_device_connected note_device_disconnected set_network_available
    registered register normalise_device_id presence update_presence present put get merged
    known_or_new publish_next replay heard transition_events device_event transition
overtaken_misread = refl

abbrev quiet_tablet : RonDevice
quiet_tablet = record (new_device "tablet" "Kitchen tablet" "display") {
  last_seen = some 100;
  connection_state = online;
  network_reachable = true;
}

abbrev quiet : NetworkService
quiet = record {
  settings = settings;
  registry = ("tablet", quiet_tablet) ∷ [];
  stop_event = false;
  wake_event = false;
  started = true;
  available = true;
  last_discovery = 0;
  place = looking;
  made = [];
  unpublished = [];
  published = [];
}

-- Silent since 100, degraded at 109, and still so at 128, though `offline_after` is 20.
ageing_postpones_offline_example :
    let m' = (age_device quiet quiet_tablet 109 109).1 in
    (device' : RonDevice) × (get m'.registry "tablet" ≡ some device')
    × (device'.connection_state ≡ degraded)
    × (device'.last_seen ≡ some 109)
    × ((later now' : ℕ)
        → later < 109 + quiet.settings.offline_after
        → (age_device m' device' later now').1 ≡ m')
ageing_postpones_offline_example =
    ageing_postpones_offline quiet "tablet" quiet_tablet 109 109 100
      (unfold normalise_device_id in refl) (unfold get in refl) refl refl refl refl (omega arith)
      (omega arith)

abbrev paired : List (Action × ℕ)
paired = (connects " TABLET" plugged_in, 103) ∷ (disconnects "tablet", 105) ∷ []

paired-IsTrusted : IsTrusted (run quiet paired) "tablet"
unfolding run act note_device_connected note_device_disconnected set_network_available registered
    register normalise_device_id presence update_presence present put get merged known_or_new
paired-IsTrusted = refl

run-IsTrusted_example : IsTrusted quiet "tablet" ⊎ (vouched "tablet" paired ≡ true)
run-IsTrusted_example = run-IsTrusted quiet paired "tablet" paired-IsTrusted
