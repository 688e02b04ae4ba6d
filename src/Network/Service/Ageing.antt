-- ===== src/Network/Service/Ageing.antt =====
-- `_age_devices` of ron/network/service.py: what it does with a device that has fallen silent.
use ron_personal_assistant.Prelude.{
  ℕ, ◌+◌, ◌≤◌, ◌<◌, String, ◌≡◌, refl, ap, ◌∙◌, Bool, true, false, some, arith, str_eq, ok,
}
use ron_personal_assistant.Prelude.Dict.{text_key, get, put, get-put_self}
use ron_personal_assistant.Network.Devices.{
  online, degraded, RonDevice, normalise_device_id, Presence, no_presence, present, known_or_new,
}
use ron_personal_assistant.Network.Service.{
  NetworkSettings, NetworkService, announced, transition_events, presence,
}
use ron_personal_assistant.Network.Service.Branches.{presence_valid}
use ron_personal_assistant.Network.Service.Worker.{desired, age_device, aged}

desired_degraded :
    (settings : NetworkSettings) (began at : ℕ) (device : RonDevice)
    → device.last_seen ≡ some at
    → str_eq device.device_id "ron-brain" ≡ false
    → at + settings.degraded_after ≤ began
    → began < at + settings.offline_after
    → desired settings began device ≡ some (degraded, device.network_reachable)
unfolding desired
desired_degraded settings began at device seen other old young = ground arith

-- A degraded device stays as it is until its silence counts as offline.
aged_degraded :
    (m : NetworkService) (device : RonDevice) (began now at : ℕ)
    → device.last_seen ≡ some at
    → device.connection_state ≡ degraded
    → began < at + m.settings.offline_after
    → (age_device m device began now).1 ≡ m
unfolding age_device desired
aged_degraded m device began now at seen state young = ground arith

known :
    (m : NetworkService) (key : String) (device : RonDevice)
    → get m.registry key ≡ some device
    → known_or_new m.registry key ≡ device
unfolding known_or_new
known m key device e = rw e

abbrev ages : Bool → Presence
ages reachable = record no_presence {
  state = some degraded;
  network_reachable = some reachable;
  service_responsive = some false;
}

age_silent :
    (m : NetworkService) (device : RonDevice) (began now : ℕ)
    → device.connection_state ≡ online
    → device.network_reachable ≡ true
    → desired m.settings began device ≡ some (degraded, device.network_reachable)
    → age_device m device began now ≡ presence m device.device_id (ages true) now
unfolding age_device
age_silent m device began now state reachable wanted =
    ap (aged m device now) wanted ∙ rw (state, reachable)

-- A reachable device that was last seen at `at` and has been silent for `degraded_after`: ageing makes
-- it DEGRADED, and counts as seeing it now. So it stays DEGRADED at every later check before
-- `now + offline_after`, also at those when its silence since `at` has lasted for `offline_after`.
pub ageing_postpones_offline :
    (m : NetworkService) (key : String) (device : RonDevice) (began now at : ℕ)
    → normalise_device_id device.device_id ≡ ok key
    → get m.registry key ≡ some device
    → device.connection_state ≡ online
    → device.network_reachable ≡ true
    → device.last_seen ≡ some at
    → str_eq device.device_id "ron-brain" ≡ false
    → at + m.settings.degraded_after ≤ began
    → began < at + m.settings.offline_after
    → let m' = (age_device m device began now).1 in
      (device' : RonDevice) × (get m'.registry key ≡ some device')
      × (device'.connection_state ≡ degraded)
      × (device'.last_seen ≡ some now)
      × ((later now' : ℕ)
          → later < now + m.settings.offline_after
          → (age_device m' device' later now').1 ≡ m')
unfolding present
ageing_postpones_offline m key device began now at valid found state reachable seen other old
      young =
    let device' = present now (ages true) device in
    let m' : NetworkService =
      announced (record m { registry = put m.registry key device' })
        (transition_events device' device.connection_state now) in
    let step : (age_device m device began now).1 ≡ m' =
      ap (λ r. r.1)
        (age_silent m device began now state reachable
            (desired_degraded m.settings began at device seen other old young)
          ∙ presence_valid m device.device_id (ages true) now key valid)
      ∙ rw (known m key device found) refl in
    (
      device',
      rw step (get-put_self m.registry key device'),
      refl,
      refl,
      λ later now' soon. rw step (aged_degraded m' device' later now' now refl refl soon),
    )
