-- ===== src/Network/Service/Trust.antt =====
-- Who makes a device of ron/network/service.py trusted.
use ron_personal_assistant.Prelude.{
  ℕ, String, ◌≡◌, ◌⊎◌, inl, inr, refl, sym, ap, ◌∙◌, Bool, true, false, ◌&&◌, ◌||◌, not, Option,
  none, some, List, [], ◌∷◌, arith, if◌then◌else◌, str_eq, eq_iff, Bool-cases, any, Result,
  Result-cases, ok, err,
}
use ron_personal_assistant.Prelude.Dict.{text_key, get, put, get-put}
use ron_personal_assistant.Core.{RonEvent}
use ron_personal_assistant.Network.Devices.{
  DeviceConnectionState, DeviceTrustState, trusted, RonDevice, DeviceRegistry, DeviceError,
  find_device, merged, normalise_device_id, Presence, present, known_or_new, given,
}
use ron_personal_assistant.Network.Service.{
  DiscoveryReply, Connection, NetworkService, Place, looking, waiting, ended, ageing, discovering,
  noting, same_state, set_network_available, presence, registered, waking, trust_of,
  note_device_connected, note_device_heartbeat, note_device_disconnected, mark_unpaired, note_reply,
  noted_discovery, note_discovery, delivered, publish_next, take_out,
}
use ron_personal_assistant.Network.Service.Branches.{
  presence_valid, presence_invalid, registered_valid, registered_invalid,
}
use ron_personal_assistant.Network.Service.Worker.{
  launched, start, stop, desired, age_device, aged, Discovered, replies, os_error, other_error,
  discovery_due, go_on, work_at, Action, starts, stops, connects, beats, disconnects, unpairs,
  discovers, works, publishes, act, run,
}

-- The registry trusts the device of a key.
abbrev pub IsTrusted : NetworkService → String → Type 0
IsTrusted m key = trust_of (get m.registry key) ≡ trusted

trust_new :
    (devices : DeviceRegistry) (key : String)
    → (known_or_new devices key).trust_state ≡ trust_of (get devices key)
unfolding known_or_new
trust_new devices key = ground arith

given_trust :
    (o : Option DeviceTrustState) (kept : DeviceTrustState)
    → given o kept ≡ trusted
    → (o ≡ some trusted) ⊎ (kept ≡ trusted)
given_trust none kept h = inr h
given_trust (some t) kept h = inl (ap some h)

trust-merged :
    (key : String) (device : RonDevice) (o : Option RonDevice)
    → (merged key device o).trust_state ≡ trusted
    → (device.trust_state ≡ trusted) ⊎ (trust_of o ≡ trusted)
unfolding merged
trust-merged key device none h = inl h
trust-merged key device (some d) h = ground arith

module _ {R : Type 0} (key : String) where
  -- One device is written; the others stay as they are.
  trusted_put :
      (devices : DeviceRegistry) (k : String) (device : RonDevice)
      → (trust_of (get devices key) ≡ trusted → R)
      → (k ≡ key → device.trust_state ≡ trusted → R)
      → trust_of (get (put devices k device) key) ≡ trusted
      → R
  trusted_put devices k device old new h =
      let written = rw (get-put devices k key device) at h in
      elim (Bool-cases (str_eq k key)) [
        | inl same ↦ new ((eq_iff k key).0 same) (rw same at written)
        | inr other ↦ old (rw other at written)
      ]

  presence_trust :
      (m : NetworkService) (device_id : String) (p : Presence) (now : ℕ)
      → (IsTrusted m key → R)
      → (p.trust_state ≡ some trusted → normalise_device_id device_id ≡ ok key → R)
      → IsTrusted (presence m device_id p now).1 key
      → R
  unfolding present
  presence_trust m device_id p now old new h = elim (Result-cases (normalise_device_id device_id)) [
    | inl (k, valid) ↦
        trusted_put m.registry k (present now p (known_or_new m.registry k)) old
          (λ same t. elim (given_trust p.trust_state _ t) [
            | inl given_now ↦ new given_now (valid ∙ ap ok same)
            | inr kept ↦ old (
                ap (λ j. trust_of (get m.registry j)) (sym same)
                ∙ sym (trust_new m.registry k)
                ∙ kept)
          ])
          (rw (presence_valid m device_id p now k valid) at h)
    | inr (e, invalid) ↦ old (rw (presence_invalid m device_id p now e invalid) at h)
  ]

  registered_trust :
      {A : Type 0} (m : NetworkService) (device : RonDevice)
      (next : NetworkService → Result DeviceError A × NetworkService)
      → (IsTrusted m key → R)
      → (device.trust_state ≡ trusted → normalise_device_id device.device_id ≡ ok key → R)
      → ((m' : NetworkService) → (IsTrusted m' key → R) → IsTrusted (next m').1 key → R)
      → IsTrusted (registered m device next).1 key
      → R
  registered_trust m device next old new follows h =
      elim (Result-cases (normalise_device_id device.device_id)) [
        | inl (k, valid) ↦
            follows (record m { registry = put m.registry k (merged k device (get m.registry k)) })
              (trusted_put m.registry k (merged k device (get m.registry k)) old (λ same t.
                elim (trust-merged k device (get m.registry k) t) [
                  | inl given_now ↦ new given_now (valid ∙ ap ok same)
                  | inr kept ↦ old (ap (λ j. trust_of (get m.registry j)) (sym same) ∙ kept)
                ]))
              (rw (registered_valid m device next k valid) at h)
        | inr (e, invalid) ↦ old (rw (registered_invalid m device next e invalid) at h)
      ]

  silent_trust :
      (m m' : NetworkService)
      → m'.registry ≡ m.registry
      → (IsTrusted m key → R)
      → IsTrusted m' key
      → R
  silent_trust m m' same old h = old (ap (λ d. trust_of (get d key)) (sym same) ∙ h)

  branch_trust :
      (x y : NetworkService) (b : Bool)
      → (IsTrusted x key → R)
      → (IsTrusted y key → R)
      → IsTrusted (if b then x else y) key
      → R
  branch_trust x y true f g = f
  branch_trust x y false f g = g

  pair_trust :
      {A : Type 0} (x y : A × NetworkService) (b : Bool)
      → (IsTrusted x.1 key → R)
      → (IsTrusted y.1 key → R)
      → IsTrusted (if b then x else y).1 key
      → R
  pair_trust x y true f g = f
  pair_trust x y false f g = g

  waking_trust :
      {A : Type 0} (r : Result DeviceError A × NetworkService)
      → (IsTrusted r.1 key → R)
      → IsTrusted (waking r).1 key
      → R
  waking_trust (ok a, m) f = f
  waking_trust (err e, m) f = f

  network_trust :
      (m : NetworkService) (available : Bool) (now : ℕ)
      → (IsTrusted m key → R)
      → IsTrusted (set_network_available m available now) key
      → R
  network_trust m available now old =
      silent_trust m (set_network_available m available now)
        (unfold set_network_available in ground arith) old

-- The id of a call is the key of a device.
abbrev names : Result DeviceError String → String → Bool
names (ok k) key = str_eq k key
names (err _) key = false

abbrev is_trusted : DeviceTrustState → Bool
is_trusted trusted = true
is_trusted _ = false

-- The calls that vouch for a device: one that reports its connection as trusted, and `start`, which
-- does so for the laptop itself.
unfoldable pub vouches : String → Action → Bool
vouches key (starts launches) = names (normalise_device_id "ron-brain") key
vouches key (connects device_id c) =
    is_trusted c.trust_state && names (normalise_device_id device_id) key
vouches key _ = false

names_valid : (r : Result DeviceError String) (key : String) → r ≡ ok key → names r key ≡ true
names_valid (ok k) key e = ground (arith, eq_iff k key)
names_valid (err x) key e = cc

find_valid :
    (devices : DeviceRegistry) (device_id key : String)
    → normalise_device_id device_id ≡ ok key
    → find_device devices device_id ≡ ok (get devices key)
unfolding find_device
find_valid devices device_id key valid = rw (valid, find_device)

module _ {R : Type 0} (key : String) (m : NetworkService) (now : ℕ)
    (old : IsTrusted m key → R) where
  connected_trust :
      (device_id : String) (c : Connection)
      → (c.trust_state ≡ trusted → normalise_device_id device_id ≡ ok key → R)
      → IsTrusted (note_device_connected m device_id c now).1 key
      → R
  unfolding note_device_connected
  connected_trust device_id c new =
      registered_trust key (if m.settings.enabled then set_network_available m true now else m) _ _
        (branch_trust key _ _ m.settings.enabled (network_trust key m true now old) old) new
        (λ m' old'. presence_trust key m' device_id _ now old' (λ e. new (cc)))

  reply_trust :
      (reply : DiscoveryReply) (existing : Option RonDevice)
      → (trust_of existing ≡ trusted → normalise_device_id reply.device_id ≡ ok key → R)
      → IsTrusted (note_reply m reply existing now).1 key
      → R
  unfolding note_reply
  reply_trust reply existing new =
      registered_trust key m _ _ old new
        (λ m' old'. presence_trust key m' reply.device_id _ now old' (λ e. new (cc)))

  noted_trust :
      (reply : DiscoveryReply) (r : Result DeviceError (Option RonDevice))
      → ((existing : Option RonDevice)
          → r ≡ ok existing
          → trust_of existing ≡ trusted
          → normalise_device_id reply.device_id ≡ ok key
          → R)
      → IsTrusted (noted_discovery m reply now r).1 key
      → R
  noted_trust reply (ok existing) new h =
      waking_trust key (note_reply m reply existing now)
        (reply_trust reply existing (new existing refl)) h
  noted_trust reply (err e) new h = old h

  discovery_trust : (reply : DiscoveryReply) → IsTrusted (note_discovery m reply now).1 key → R
  unfolding note_discovery
  discovery_trust reply =
      noted_trust reply (find_device m.registry reply.device_id) (λ existing found t valid.
        old (cc (found, t, find_valid m.registry reply.device_id key valid)))

  unpaired_trust : (device_id : String) → IsTrusted (mark_unpaired m device_id now).1 key → R
  unfolding mark_unpaired
  unpaired_trust device_id = presence_trust key m device_id _ now old (λ e. cc)

  disconnected_trust :
      (device_id : String) → IsTrusted (note_device_disconnected m device_id now).1 key → R
  unfolding note_device_disconnected
  disconnected_trust device_id =
      waking_trust key _ (presence_trust key m device_id _ now old (λ e. cc))

  heartbeat_trust :
      (device_id : String) (metadata : Option (List (String × String)))
      → IsTrusted (note_device_heartbeat m device_id metadata now).1 key
      → R
  unfolding note_device_heartbeat
  heartbeat_trust device_id metadata = presence_trust key m device_id _ now old (λ e. cc)

  aged_trust :
      (device : RonDevice) (wanted : Option (DeviceConnectionState × Bool))
      → IsTrusted (aged m device now wanted).1 key
      → R
  aged_trust device none = old
  aged_trust device (some (state, reachable)) =
      pair_trust key _ _ (same_state device.connection_state state) old
        (presence_trust key m device.device_id _ now old (λ e. cc))

  go_on_trust :
      (next : Place) (r : Result DeviceError RonDevice × NetworkService)
      → (IsTrusted r.1 key → R)
      → IsTrusted (go_on now next r) key
      → R
  go_on_trust next (ok _, m') f = f
  go_on_trust next (err _, m') f = network_trust key _ false now f

  due_trust : (began : ℕ) (b : Bool) → IsTrusted (discovery_due m began b) key → R
  due_trust began true = old
  due_trust began false = old

  work_at_trust :
      (found : Discovered) (place : Place) → IsTrusted (work_at m now found place) key → R
  unfolding work_at
  work_at_trust found looking = branch_trust key _ _ m.stop_event old old
  work_at_trust found (ageing began (device ∷ rest)) =
      go_on_trust (ageing began rest) (age_device m device began now)
        (unfold age_device in aged_trust device (desired m.settings began device))
  work_at_trust found (ageing began []) = due_trust began _
  work_at_trust (replies rs) discovering = network_trust key m true now old
  work_at_trust os_error discovering = network_trust key m false now old
  work_at_trust other_error discovering = old
  work_at_trust found (noting (reply ∷ rest)) = discovery_trust reply
  work_at_trust found (noting []) = old
  work_at_trust found waiting = old
  work_at_trust found ended = old

  launched_trust :
      (launches : Bool) (r : Result DeviceError RonDevice × NetworkService)
      → (IsTrusted r.1 key → R)
      → IsTrusted (launched launches now r).1 key
      → R
  unfolding launched
  launched_trust launches (err e, m') f = f
  launched_trust true (ok _, m') f = f
  launched_trust false (ok _, m') f = network_trust key _ false now f

delivered_trust :
    (key : String) (m : NetworkService) (o : Option (RonEvent × List RonEvent))
    → IsTrusted (delivered m o) key
    → IsTrusted m key
delivered_trust key m none h = h
delivered_trust key m (some (event, rest)) h = h

act_trust :
    {R : Type 0} (key : String) (m : NetworkService) (a : Action) (now : ℕ)
    → (IsTrusted m key → R)
    → (vouches key a ≡ true → R)
    → IsTrusted (act m a now) key
    → R
unfolding act vouches start stop publish_next
act_trust key m (starts launches) now old new =
    pair_trust key _ _ (m.started || not m.settings.enabled) old (
      launched_trust key m now old launches _ (
        connected_trust key
          (set_network_available
            (record m { stop_event = false; wake_event = false; started = true }) true now)
          now (network_trust key _ true now old) "ron-brain" _
          (λ t valid. new (names_valid _ key valid))))
act_trust key m stops now old new =
    branch_trust key _ _ (not m.started) old (network_trust key _ false now old)
act_trust key m (connects device_id c) now old new =
    connected_trust key m now old device_id c
      (λ t valid. new (ground (arith, t, names_valid _ key valid)))
act_trust key m (beats device_id metadata) now old new =
    heartbeat_trust key m now old device_id metadata
act_trust key m (disconnects device_id) now old new = disconnected_trust key m now old device_id
act_trust key m (unpairs device_id) now old new = unpaired_trust key m now old device_id
act_trust key m (discovers reply) now old new = discovery_trust key m now old reply
act_trust key m (works found) now old new = work_at_trust key m now old found m.place
act_trust key m (publishes n) now old new =
    λ h. old (delivered_trust key m (take_out n m.unpublished) h)

-- Some action vouches for the device.
abbrev pub vouched : String → List (Action × ℕ) → Bool
vouched key actions = any (λ a. vouches key a.0) actions

-- Whatever the devices, the clients and the worker do, in any order and at any time: a device that is
-- trusted at the end was trusted before, or some call vouched for it, that is, reported it as
-- connected and trusted, or was the start, which does so for the laptop itself. Discoveries,
-- heartbeats, disconnections and ageing never make a device trusted.
pub run-IsTrusted :
    (m : NetworkService) (actions : List (Action × ℕ)) (key : String)
    → IsTrusted (run m actions) key
    → IsTrusted m key ⊎ (vouched key actions ≡ true)
unfolding run
run-IsTrusted m [] key h = inl h
run-IsTrusted m ((a, now) ∷ rest) key h = elim (run-IsTrusted (act m a now) rest key h) [
  | inl before ↦ act_trust key m a now inl (λ v. inr (ground (arith, v))) before
  | inr later ↦ inr (ground (arith, later))
]
