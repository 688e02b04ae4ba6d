-- ===== src/Network/Service/History.antt =====
-- Whatever happens on the network, the events tell the states: the calls of ron/network/service.py.
use mathlib.Core.List.{Perm}
use mathlib.Core.List.Perm
use ron_personal_assistant.Prelude.{
  ◌++◌, ℕ, String, ◌≡◌, ◌≢◌, refl, Bool, true, false, ◌||◌, not, Option, none, some, List, [], ◌∷◌,
  arith, if◌then◌else◌, Result, ok, err,
}
use ron_personal_assistant.Prelude.Dict.{text_key, get}
use ron_personal_assistant.Network.Devices.{
  DeviceConnectionState, online, degraded, offline, RonDevice, DeviceError, find_device,
}
use ron_personal_assistant.Network.Service.{
  DiscoveryReply, Connection, NetworkSettings, NetworkService, Place, looking, waiting, ended,
  ageing, discovering, noting, is_online, same_state, set_network_available, waking,
  discovered_state, note_device_connected, note_device_heartbeat, note_device_disconnected,
  mark_unpaired, note_reply, noted_discovery, note_discovery,
}
use ron_personal_assistant.Network.Service.Worker.{
  discovery_due, aged, bare, with_face, truthy, new_service, launched, start, stop, desired,
  age_device, Discovered, replies, os_error, other_error, go_on, work_at, Action, starts, stops,
  connects, beats, disconnects, unpairs, discovers, works, publishes, act, run,
}
use ron_personal_assistant.Network.Service.Log.{
  state_of, replay, IsLogged, IsLogged-if, silent-IsLogged, set_network_available-IsLogged,
  presence-IsLogged, registered-IsLogged, publish_next-IsLogged,
}

online_known : online ≢ DeviceConnectionState.unknown
online_known e = cc

degraded_known : degraded ≢ DeviceConnectionState.unknown
degraded_known e = cc

offline_known : offline ≢ DeviceConnectionState.unknown
offline_known e = cc

discovered_known :
    (existing : Option RonDevice) → discovered_state existing ≢ DeviceConnectionState.unknown
discovered_known none = degraded_known
discovered_known (some d) = if_known (is_online d.connection_state)
  where
    if_known : (b : Bool) → (if b then online else degraded) ≢ DeviceConnectionState.unknown
    if_known true = online_known
    if_known false = degraded_known

waking-IsLogged :
    {A : Type 0} (r : Result DeviceError A × NetworkService) → IsLogged r.1 → IsLogged (waking r).1
waking-IsLogged (ok a, m) l = silent-IsLogged m _ l refl refl
waking-IsLogged (err e, m) l = l

module _ (m : NetworkService) (l : IsLogged m) (now : ℕ) where
  connected-IsLogged :
      (device_id : String) (c : Connection) → IsLogged (note_device_connected m device_id c now).1
  unfolding note_device_connected
  connected-IsLogged device_id c =
      registered-IsLogged (if m.settings.enabled then set_network_available m true now else m)
        (IsLogged-if _ _ m.settings.enabled (set_network_available-IsLogged m true now l) l) _ _
        refl (λ m' l'. presence-IsLogged m' l' device_id _ now online refl online_known)

  heartbeat-IsLogged :
      (device_id : String) (metadata : Option (List (String × String)))
      → IsLogged (note_device_heartbeat m device_id metadata now).1
  unfolding note_device_heartbeat
  heartbeat-IsLogged device_id metadata =
      presence-IsLogged m l device_id _ now online refl online_known

  disconnected-IsLogged :
      (device_id : String) → IsLogged (note_device_disconnected m device_id now).1
  unfolding note_device_disconnected
  disconnected-IsLogged device_id =
      waking-IsLogged _ (presence-IsLogged m l device_id _ now degraded refl degraded_known)

  unpaired-IsLogged : (device_id : String) → IsLogged (mark_unpaired m device_id now).1
  unfolding mark_unpaired
  unpaired-IsLogged device_id = presence-IsLogged m l device_id _ now degraded refl degraded_known

  reply-IsLogged :
      (reply : DiscoveryReply) (existing : Option RonDevice)
      → IsLogged (note_reply m reply existing now).1
  unfolding note_reply
  reply-IsLogged reply existing = registered-IsLogged m l _ _ refl (λ m' l'.
      presence-IsLogged m' l' reply.device_id _ now (discovered_state existing) refl
        (discovered_known existing))

  discovery-IsLogged : (reply : DiscoveryReply) → IsLogged (note_discovery m reply now).1
  unfolding note_discovery
  discovery-IsLogged reply = go (find_device m.registry reply.device_id)
    where
      go : (r : Result DeviceError (Option RonDevice)) → IsLogged (noted_discovery m reply now r).1
      go (ok existing) = waking-IsLogged _ (reply-IsLogged reply existing)
      go (err e) = l

desired_known :
    (settings : NetworkSettings) (began : ℕ) (device : RonDevice) (s : DeviceConnectionState)
    (reachable : Bool)
    → desired settings began device ≡ some (s, reachable)
    → s ≢ DeviceConnectionState.unknown
unfolding desired
desired_known settings began device s reachable e u = ground arith

IsLogged-pair_if :
    {A : Type 0} (x y : A × NetworkService) (b : Bool)
    → IsLogged x.1
    → IsLogged y.1
    → IsLogged (if b then x else y).1
IsLogged-pair_if x y true l l' = l
IsLogged-pair_if x y false l l' = l'

launched-IsLogged :
    (launches : Bool) (now : ℕ) (r : Result DeviceError RonDevice × NetworkService)
    → IsLogged r.1
    → IsLogged (launched launches now r).1
unfolding launched
launched-IsLogged launches now (err e, m) l = l
launched-IsLogged true now (ok _, m) l = silent-IsLogged m _ l refl refl
launched-IsLogged false now (ok _, m) l =
    set_network_available-IsLogged _ false now (silent-IsLogged m _ l refl refl)

go_on-IsLogged :
    (now : ℕ) (next : Place) (r : Result DeviceError RonDevice × NetworkService)
    → IsLogged r.1
    → IsLogged (go_on now next r)
go_on-IsLogged now next (ok _, m) l = silent-IsLogged m _ l refl refl
go_on-IsLogged now next (err _, m) l =
    set_network_available-IsLogged _ false now (silent-IsLogged m _ l refl refl)

module _ (m : NetworkService) (l : IsLogged m) (now : ℕ) where
  start-IsLogged : (launches : Bool) → IsLogged (start m launches now).1
  unfolding start
  start-IsLogged launches = IsLogged-pair_if _ _ (m.started || not m.settings.enabled) l (
      launched-IsLogged launches now _ (
        connected-IsLogged _
          (set_network_available-IsLogged _ true now (silent-IsLogged m _ l refl refl)) now _ _))

  stop-IsLogged : IsLogged (stop m now)
  unfolding stop
  stop-IsLogged =
      IsLogged-if _ _ (not m.started) l
        (set_network_available-IsLogged _ false now (silent-IsLogged m _ l refl refl))

  aged-IsLogged :
      (device : RonDevice) (wanted : Option (DeviceConnectionState × Bool))
      → ((s : DeviceConnectionState) (reachable : Bool)
          → wanted ≡ some (s, reachable)
          → s ≢ DeviceConnectionState.unknown)
      → IsLogged (aged m device now wanted).1
  aged-IsLogged device none known = l
  aged-IsLogged device (some (s, reachable)) known =
      IsLogged-pair_if _ _ (same_state device.connection_state s) l
        (presence-IsLogged m l device.device_id _ now s refl (known s reachable refl))

  age_device-IsLogged :
      (device : RonDevice) (began : ℕ) → IsLogged (age_device m device began now).1
  unfolding age_device
  age_device-IsLogged device began =
      aged-IsLogged device (desired m.settings began device) (desired_known m.settings began device)

  due-IsLogged : (began : ℕ) (b : Bool) → IsLogged (discovery_due m began b)
  due-IsLogged began true = silent-IsLogged m _ l refl refl
  due-IsLogged began false = silent-IsLogged m _ l refl refl

  work_at-IsLogged : (found : Discovered) (place : Place) → IsLogged (work_at m now found place)
  unfolding work_at
  work_at-IsLogged found looking =
      IsLogged-if _ _ m.stop_event (silent-IsLogged m _ l refl refl)
        (silent-IsLogged m _ l refl refl)
  work_at-IsLogged found (ageing began (device ∷ rest)) =
      go_on-IsLogged now (ageing began rest) _ (age_device-IsLogged device began)
  work_at-IsLogged found (ageing began []) = due-IsLogged began _
  work_at-IsLogged (replies rs) discovering =
      silent-IsLogged _ _ (set_network_available-IsLogged m true now l) refl refl
  work_at-IsLogged os_error discovering =
      silent-IsLogged _ _ (set_network_available-IsLogged m false now l) refl refl
  work_at-IsLogged other_error discovering = silent-IsLogged m _ l refl refl
  work_at-IsLogged found (noting (reply ∷ rest)) =
      silent-IsLogged _ _ (discovery-IsLogged m l now reply) refl refl
  work_at-IsLogged found (noting []) = silent-IsLogged m _ l refl refl
  work_at-IsLogged found waiting = silent-IsLogged m _ l refl refl
  work_at-IsLogged found ended = l

act-IsLogged : (m : NetworkService) (l : IsLogged m) (a : Action) (now : ℕ) → IsLogged (act m a now)
unfolding act
act-IsLogged m l (starts launches) now = start-IsLogged m l now launches
act-IsLogged m l stops now = stop-IsLogged m l now
act-IsLogged m l (connects device_id c) now = connected-IsLogged m l now device_id c
act-IsLogged m l (beats device_id metadata) now = heartbeat-IsLogged m l now device_id metadata
act-IsLogged m l (disconnects device_id) now = disconnected-IsLogged m l now device_id
act-IsLogged m l (unpairs device_id) now = unpaired-IsLogged m l now device_id
act-IsLogged m l (discovers reply) now = discovery-IsLogged m l now reply
act-IsLogged m l (works found) now = work_at-IsLogged m l now found m.place
act-IsLogged m l (publishes n) now = publish_next-IsLogged m n l

run-IsLogged :
    (m : NetworkService) (l : IsLogged m) (actions : List (Action × ℕ)) → IsLogged (run m actions)
unfolding run
run-IsLogged m l [] = l
run-IsLogged m l ((a, now) ∷ rest) = run-IsLogged (act m a now) (act-IsLogged m l a now) rest

face-IsLogged :
    (m : NetworkService) (l : IsLogged m) (host : Option String) (port : ℕ)
    → IsLogged (with_face host port m).1
face-IsLogged m l none port = l
face-IsLogged m l (some host) port = registered-IsLogged m l _ _ refl (λ m' l'. l')

new_service-IsLogged : (settings : NetworkSettings) → IsLogged (new_service settings)
unfolding new_service replay get
new_service-IsLogged settings =
    registered-IsLogged (bare settings)
      (record { logged = λ k. refl; delivered_once = Perm.refl []; named = λ k d e. cc }) _ _ refl
      (λ m l. face-IsLogged m l (truthy settings.face_host) settings.face_port)

-- Whatever the clients, the devices and the worker do, in any order and at any time, from a new
-- service: to a reader of the events that the calls have made, in the order of the registry's changes,
-- who takes a device for unknown before its first event, every event about a device fits the state
-- that the events before gave it (CONNECTED after unknown, RECONNECTED after degraded or offline,
-- DEGRADED and DISCONNECTED after another state), and the last one gives the state that the registry
-- has. The published events and those that a thread has still to publish are these events, each once;
-- the order of the published ones may be another.
pub events_tell_states :
    (settings : NetworkSettings) (actions : List (Action × ℕ)) (key : String)
    → let m = run (new_service settings) actions in
      (replay key DeviceConnectionState.unknown m.made ≡ some (state_of (get m.registry key)))
      × Perm m.made (m.published ++ m.unpublished)
events_tell_states settings actions key =
    let l = run-IsLogged (new_service settings) (new_service-IsLogged settings) actions in
    (l.logged key, l.delivered_once)
