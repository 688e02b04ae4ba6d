-- ===== src/Network/Devices.antt =====
-- ron/network/devices.py: the registry of the devices that Ron knows.
-- Metadata values are texts here, since the registry only stores them.
use Prim.Native.Char.{Char, code}
use Prim.Native.String
use ron_personal_assistant.Prelude.{
  ℕ, ◌-◌, String, count, Bool, true, false, ◌&&◌, ◌||◌, not, Option, none, some, List, [], ◌∷◌, ltb,
  leb, ◌==◌, if◌then◌else◌, is_truthy, strip, mem_text, Result, ok, err,
}
use ron_personal_assistant.Prelude.Dict.{Dict, text_key, get, put, remove}

pub data DeviceConnectionState : Type 0 where
  unknown online degraded offline : DeviceConnectionState

pub data DeviceTrustState : Type 0 where
  trusted unpaired unknown : DeviceTrustState

pub record RonDevice : Type 0 where
  pub device_id : String
  pub friendly_name : String
  pub device_type : String
  pub ip_address : Option String
  pub port : Option ℕ
  pub last_seen : Option ℕ
  pub connection_state : DeviceConnectionState
  pub trust_state : DeviceTrustState
  pub capabilities : List String
  pub metadata : Dict String String
  pub network_reachable : Bool
  pub service_responsive : Bool

-- A device as the dataclass makes it, with its defaults.
abbrev pub new_device : String → String → String → RonDevice
new_device device_id friendly_name device_type = record {
  device_id = device_id;
  friendly_name = friendly_name;
  device_type = device_type;
  ip_address = none;
  port = none;
  last_seen = none;
  connection_state = DeviceConnectionState.unknown;
  trust_state = DeviceTrustState.unknown;
  capabilities = [];
  metadata = [];
  network_reachable = false;
  service_responsive = false;
}

-- `DeviceRegistry`; a copy of a device is the device, since the records are values.
abbrev pub DeviceRegistry : Type 0
DeviceRegistry = Dict String RonDevice

-- The `ValueError` of `_normalise_device_id`.
pub data DeviceError : Type 0 where
  invalid_length unsupported_characters : DeviceError

alphabet : String
alphabet = "abcdefghijklmnopqrstuvwxyz"

-- `str.lower`, as far as an allowed character can come of it: the capitals, and the Kelvin sign.
lower_char : Char → Char
unfolding alphabet
lower_char c =
    if leb b'A' (code c) && leb (code c) b'Z'
    then String.char_at alphabet (code c - b'A')
    else if code c == 0x212a
    then "k"
    else c

unfoldable pub lower : String → String
unfolding lower_char
lower String.[] = ""
lower (String.◌∷◌ c s) = String.◌∷◌ (lower_char c) (lower s)

abbrev pub is_allowed : Char → Bool
is_allowed c =
    (leb b'a' (code c) && leb (code c) b'z')
    || (leb b'0' (code c) && leb (code c) b'9')
    || code c == b'-'
    || code c == b'_'
    || code c == b'.'

unfoldable pub all_allowed : String → Bool
all_allowed String.[] = true
all_allowed (String.◌∷◌ c s) = is_allowed c && all_allowed s

-- `_normalise_device_id`
unfoldable pub normalise_device_id : String → Result DeviceError String
unfolding lower strip all_allowed
normalise_device_id device_id =
    let value = lower (strip device_id) in
    if not (is_truthy value) || ltb 80 (count value)
    then err invalid_length
    else if not (all_allowed value)
    then err unsupported_characters
    else ok value

-- `set.update`
unfoldable pub add_all : List String → List String → List String
add_all known [] = known
add_all known (x ∷ xs) = add_all (if mem_text x known then known else x ∷ known) xs

-- `dict.update`
unfoldable pub put_all : Dict String String → Dict String String → Dict String String
put_all known [] = known
put_all known ((k, v) ∷ rest) = put_all (put known k v) rest

-- `if value: field = value`, and `if value is not None: field = value`
abbrev pub or_kept : String → String → String
or_kept value kept = if is_truthy value then value else kept

abbrev pub given {ℓ} : {A : Type ℓ} → Option A → A → A
given none kept = kept
given (some value) kept = value

abbrev pub given_some {ℓ} : {A : Type ℓ} → Option A → Option A → Option A
given_some none kept = kept
given_some (some value) kept = some value

abbrev merged_address : Option String → Option String → Option String
merged_address none kept = kept
merged_address (some value) kept = if is_truthy value then some value else kept

abbrev merged_trust : DeviceTrustState → DeviceTrustState → DeviceTrustState
merged_trust DeviceTrustState.unknown kept = kept
merged_trust DeviceTrustState.trusted kept = DeviceTrustState.trusted
merged_trust DeviceTrustState.unpaired kept = DeviceTrustState.unpaired

-- The device that `register` stores.
unfoldable pub merged : String → RonDevice → Option RonDevice → RonDevice
merged device_id device none = record device { device_id = device_id }
merged device_id device (some existing) = record existing {
  friendly_name = or_kept device.friendly_name existing.friendly_name;
  device_type = or_kept device.device_type existing.device_type;
  ip_address = merged_address device.ip_address existing.ip_address;
  port = given_some device.port existing.port;
  capabilities = add_all existing.capabilities device.capabilities;
  metadata = put_all existing.metadata device.metadata;
  trust_state = merged_trust device.trust_state existing.trust_state;
}

-- `register`
unfoldable pub register : DeviceRegistry → RonDevice → Result DeviceError RonDevice × DeviceRegistry
register devices device = elim (normalise_device_id device.device_id) [
  | err e ↦ (err e, devices)
  | ok device_id ↦
      let stored = merged device_id device (get devices device_id) in
      (ok stored, put devices device_id stored)
]

-- `get`
unfoldable pub find_device : DeviceRegistry → String → Result DeviceError (Option RonDevice)
find_device devices device_id = elim (normalise_device_id device_id) [
  | err e ↦ err e
  | ok key ↦ ok (get devices key)
]

-- `all`
unfoldable pub all_devices : DeviceRegistry → List RonDevice
all_devices [] = []
all_devices ((_, device) ∷ devices) = device ∷ all_devices devices

-- The keyword arguments of `update_presence`.
pub record Presence : Type 0 where
  pub ip_address : Option String
  pub port : Option ℕ
  pub state : Option DeviceConnectionState
  pub trust_state : Option DeviceTrustState
  pub network_reachable : Option Bool
  pub service_responsive : Option Bool
  pub capabilities : Option (List String)
  pub metadata : Option (Dict String String)
  pub seen_at : Option ℕ

-- No argument is given.
abbrev pub no_presence : Presence
no_presence = record {
  ip_address = none;
  port = none;
  state = none;
  trust_state = none;
  network_reachable = none;
  service_responsive = none;
  capabilities = none;
  metadata = none;
  seen_at = none;
}

abbrev is_set : Option Bool → Bool
is_set none = false
is_set (some b) = b

abbrev seen : Option ℕ → Bool → ℕ → Option ℕ → Option ℕ
seen (some at) heard now last = some at
seen none heard now last = if heard then some now else last

abbrev added_to : List String → Option (List String) → List String
added_to known none = known
added_to known (some xs) = add_all known xs

abbrev put_into : Dict String String → Option (Dict String String) → Dict String String
put_into known none = known
put_into known (some d) = put_all known d

-- The device that `update_presence` leaves.
unfoldable pub present : ℕ → Presence → RonDevice → RonDevice
present now p device = record device {
  ip_address = given_some p.ip_address device.ip_address;
  port = given_some p.port device.port;
  trust_state = given p.trust_state device.trust_state;
  network_reachable = given p.network_reachable device.network_reachable;
  service_responsive = given p.service_responsive device.service_responsive;
  capabilities = added_to device.capabilities p.capabilities;
  metadata = put_into device.metadata p.metadata;
  last_seen =
      seen p.seen_at (is_set p.network_reachable || is_set p.service_responsive) now
        device.last_seen;
  connection_state = given p.state device.connection_state;
}

-- The device of a key, made if it is missing.
unfoldable pub known_or_new : DeviceRegistry → String → RonDevice
known_or_new devices key = given (get devices key) (new_device key key "unknown")

-- `update_presence`, at a time: the device and its state before.
unfoldable pub update_presence :
    DeviceRegistry
    → String
    → Presence
    → ℕ
    → Result DeviceError (RonDevice × DeviceConnectionState) × DeviceRegistry
update_presence devices device_id p now = elim (normalise_device_id device_id) [
  | err e ↦ (err e, devices)
  | ok key ↦
      let device = known_or_new devices key in
      let updated = present now p device in
      (ok (updated, device.connection_state), put devices key updated)
]

-- `remove`
unfoldable pub remove_device :
    DeviceRegistry → String → Result DeviceError (Option RonDevice) × DeviceRegistry
remove_device devices device_id = elim (normalise_device_id device_id) [
  | err e ↦ (err e, devices)
  | ok key ↦ (ok (get devices key), remove devices key)
]
