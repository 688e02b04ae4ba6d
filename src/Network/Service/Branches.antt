-- ===== src/Network/Service/Branches.antt =====
-- The two outcomes of the registry's calls in ron/network/service.py: a valid id, or an exception.
use ron_personal_assistant.Prelude.{ℕ, String, ◌≡◌, ap, Result, ok, err}
use ron_personal_assistant.Prelude.Dict.{text_key, get, put}
use ron_personal_assistant.Network.Devices.{
  RonDevice, DeviceRegistry, DeviceError, register, merged, normalise_device_id, Presence, present,
  known_or_new, update_presence,
}
use ron_personal_assistant.Network.Service.{
  NetworkService, announced, transition_events, transitioned, after_register, presence, registered,
}

module _ (devices : DeviceRegistry) where
  update_valid :
      (device_id key : String) (p : Presence) (now : ℕ)
      → normalise_device_id device_id ≡ ok key
      → let device = known_or_new devices key in
        update_presence devices device_id p now ≡ (
          ok (present now p device, device.connection_state),
          put devices key (present now p device),
        )
  unfolding update_presence
  update_valid device_id key p now valid = rw (valid, update_presence)

  update_invalid :
      (device_id : String) (e : DeviceError) (p : Presence) (now : ℕ)
      → normalise_device_id device_id ≡ err e
      → update_presence devices device_id p now ≡ (err e, devices)
  unfolding update_presence
  update_invalid device_id e p now invalid = rw (invalid, update_presence)

  register_valid :
      (device : RonDevice) (key : String)
      → normalise_device_id device.device_id ≡ ok key
      → let stored = merged key device (get devices key) in
        register devices device ≡ (ok stored, put devices key stored)
  unfolding register
  register_valid device key valid = rw (valid, register)

  register_invalid :
      (device : RonDevice) (e : DeviceError)
      → normalise_device_id device.device_id ≡ err e
      → register devices device ≡ (err e, devices)
  unfolding register
  register_invalid device e invalid = rw (invalid, register)

module _ (m : NetworkService) (device_id : String) (p : Presence) (now : ℕ) where
  pub presence_valid :
      (key : String)
      → normalise_device_id device_id ≡ ok key
      → let device = present now p (known_or_new m.registry key) in
        presence m device_id p now ≡ (
          ok device,
          announced
              (record m { registry = put m.registry key device })
              (transition_events device (known_or_new m.registry key).connection_state now),
        )
  unfolding presence
  presence_valid key valid =
      ap (transitioned m now) (update_valid m.registry device_id key p now valid)

  pub presence_invalid :
      (e : DeviceError)
      → normalise_device_id device_id ≡ err e
      → presence m device_id p now ≡ (err e, m)
  unfolding presence
  presence_invalid e invalid =
      ap (transitioned m now) (update_invalid m.registry device_id e p now invalid)

module _ {A : Type 0} (m : NetworkService) (device : RonDevice)
    (next : NetworkService → Result DeviceError A × NetworkService) where
  pub registered_valid :
      (key : String)
      → normalise_device_id device.device_id ≡ ok key
      → registered m device next
        ≡ next (record m { registry = put m.registry key (merged key device (get m.registry key)) })
  unfolding registered
  registered_valid key valid =
      ap (after_register m next) (register_valid m.registry device key valid)

  pub registered_invalid :
      (e : DeviceError)
      → normalise_device_id device.device_id ≡ err e
      → registered m device next ≡ (err e, m)
  unfolding registered
  registered_invalid e invalid =
      ap (after_register m next) (register_invalid m.registry device e invalid)
