-- ===== src/Network/Service/Log.antt =====
-- The events that ron/network/service.py makes about devices, as a log of their states.
use mathlib.Core.List.{Perm}
use mathlib.Core.List.Perm
use ron_personal_assistant.Prelude.Drop.{append_assoc}
use ron_personal_assistant.Prelude.{
  zero, suc, subst, ℕ, String, ◌≡◌, ◌≢◌, refl, sym, ap, ◌∙◌, Bool, true, false, Option, none, some,
  List, [], ◌∷◌, ◌++◌, arith, if◌then◌else◌, str_eq, eq_iff, inl, inr, Bool-cases, Option-cases,
  Result, Result-cases,
}
use ron_personal_assistant.Prelude.Dict.{text_key, get, put, get-put}
use ron_personal_assistant.Core.{
  EventType, device_connected, device_disconnected, device_reconnected, device_degraded,
  network_available, network_unavailable, RonEvent,
}
use ron_personal_assistant.Network.Devices.{
  DeviceConnectionState, online, degraded, offline, RonDevice, DeviceError, merged,
  normalise_device_id, Presence, present, known_or_new, given,
}
use ron_personal_assistant.Network.Service.{
  NetworkService, announced, take_out, publish_next, same_bool, same_state, set_network_available,
  transition, transition_events, device_event, presence, registered,
}
use ron_personal_assistant.Network.Service.Branches.{
  presence_valid, presence_invalid, registered_valid, registered_invalid,
}

-- The connection state of a device that is not known is `unknown`.
abbrev pub state_of : Option RonDevice → DeviceConnectionState
state_of none = DeviceConnectionState.unknown
state_of (some device) = device.connection_state

-- What a reader of the events makes of one about a device: its new state, if the event fits the
-- state before.
abbrev pub moved : EventType → DeviceConnectionState → Option DeviceConnectionState
moved device_connected DeviceConnectionState.unknown = some online
moved device_reconnected degraded = some online
moved device_reconnected offline = some online
moved device_degraded DeviceConnectionState.unknown = some degraded
moved device_degraded online = some degraded
moved device_degraded offline = some degraded
moved device_disconnected DeviceConnectionState.unknown = some offline
moved device_disconnected online = some offline
moved device_disconnected degraded = some offline
moved _ _ = none

-- One event, read for one device.
unfoldable pub heard : String → DeviceConnectionState → RonEvent → Option DeviceConnectionState
heard key state event = elim (get event.payload "device_id") [
  | none ↦ some state
  | some device_id ↦ if str_eq device_id key then moved event.type state else some state
]

abbrev pub bound : {A B : Type 0} → Option A → (A → Option B) → Option B
bound none f = none
bound (some a) f = f a

unfoldable pub replay :
    String → DeviceConnectionState → List RonEvent → Option DeviceConnectionState
replay key state [] = some state
replay key state (e ∷ es) = bound (heard key state e) (λ s. replay key s es)

bound-bound :
    {A B C : Type 0} (o : Option A) (f : A → Option C) (g : A → Option B) (k : B → Option C)
    → ((a : A) → f a ≡ bound (g a) k)
    → bound o f ≡ bound (bound o g) k
bound-bound none f g k h = refl
bound-bound (some a) f g k h = h a

replay-append :
    (key : String) (state : DeviceConnectionState) (xs ys : List RonEvent)
    → replay key state (xs ++ ys) ≡ bound (replay key state xs) (λ s. replay key s ys)
unfolding replay
replay-append key state [] ys = refl
replay-append key state (e ∷ es) ys =
    bound-bound (heard key state e) _ _ _ (λ s. replay-append key s es ys)

-- The event of a transition is heard as the new state by the reader who knows the old one.
moved-transition :
    (current previous : DeviceConnectionState)
    → same_state current previous ≡ false
    → (type : EventType) → transition current previous ≡ some type
    → moved type previous ≡ some current
unfolding transition
moved-transition online DeviceConnectionState.unknown d type e = ground arith
moved-transition online online d type e = ground arith
moved-transition online degraded d type e = ground arith
moved-transition online offline d type e = ground arith
moved-transition degraded DeviceConnectionState.unknown d type e = ground arith
moved-transition degraded online d type e = ground arith
moved-transition degraded degraded d type e = ground arith
moved-transition degraded offline d type e = ground arith
moved-transition offline DeviceConnectionState.unknown d type e = ground arith
moved-transition offline online d type e = ground arith
moved-transition offline degraded d type e = ground arith
moved-transition offline offline d type e = ground arith
moved-transition DeviceConnectionState.unknown previous d type e = cc

same_state_iff : (a b : DeviceConnectionState) → same_state a b ≡ true → a ≡ b
same_state_iff DeviceConnectionState.unknown DeviceConnectionState.unknown h = refl
same_state_iff DeviceConnectionState.unknown online h = cc
same_state_iff DeviceConnectionState.unknown degraded h = cc
same_state_iff DeviceConnectionState.unknown offline h = cc
same_state_iff online b h = ground arith
same_state_iff degraded b h = ground arith
same_state_iff offline b h = ground arith

heard-device_event :
    (key : String) (state : DeviceConnectionState) (type : EventType) (device : RonDevice)
    (previous : DeviceConnectionState) (now : ℕ)
    → heard key state (device_event type device previous now)
      ≡ (if str_eq device.device_id key then moved type state else some state)
unfolding heard device_event get
heard-device_event key state type device previous now = refl

transition_known :
    (current previous : DeviceConnectionState)
    → current ≢ DeviceConnectionState.unknown
    → (type : EventType) × (transition current previous ≡ some type)
unfolding transition
transition_known DeviceConnectionState.unknown previous known = absurd (known refl)
transition_known online DeviceConnectionState.unknown known = (device_connected, refl)
transition_known online online known = (device_connected, refl)
transition_known online degraded known = (device_reconnected, refl)
transition_known online offline known = (device_reconnected, refl)
transition_known degraded previous known = (device_degraded, refl)
transition_known offline previous known = (device_disconnected, refl)

-- The events about a change of one device, read for any device.
replay-transition_events :
    (key : String) (device : RonDevice) (previous state : DeviceConnectionState) (now : ℕ)
    → device.connection_state ≢ DeviceConnectionState.unknown
    → (str_eq device.device_id key ≡ true → state ≡ previous)
    → replay key state (transition_events device previous now)
      ≡ some (if str_eq device.device_id key then device.connection_state else state)
unfolding transition_events replay
replay-transition_events key device previous state now known agrees =
    elim (Bool-cases (same_state device.connection_state previous)) [
      | inl same ↦ rw same (ground (arith, same_state_iff _ _ same, agrees))
      | inr differs ↦
          let (type, e) = transition_known device.connection_state previous known in
          rw (differs, e)
            (ground (
              arith,
              heard-device_event key state type device previous now,
              agrees,
              moved-transition device.connection_state previous differs type e,
            ))
    ]

pub record IsLogged (m : NetworkService) : Type 0 where
  -- what the events say of each device, each event fitting the ones before
  pub logged :
      (key : String)
      → replay key DeviceConnectionState.unknown m.made ≡ some (state_of (get m.registry key))
  -- each event was published once, or will be
  pub delivered_once : Perm m.made (m.published ++ m.unpublished)
  pub named : (key : String) (d : RonDevice) → get m.registry key ≡ some d → d.device_id ≡ key

-- What the service has of its events.
abbrev pub events_of : NetworkService → List RonEvent × List RonEvent × List RonEvent
events_of m = (m.made, m.published, m.unpublished)

more_due :
    (made published unpublished events : List RonEvent)
    → Perm made (published ++ unpublished)
    → Perm (made ++ events) (published ++ (unpublished ++ events))
more_due made published unpublished events p =
    subst (Perm (made ++ events)) (append_assoc published unpublished events)
      (Perm.append_right events p)

same_due :
    (m m' : NetworkService)
    → events_of m' ≡ events_of m
    → Perm m.made (m.published ++ m.unpublished)
    → Perm m'.made (m'.published ++ m'.unpublished)
same_due m m' e p = subst (λ x. Perm x.0 (x.1 ++ x.2)) (sym e) p

module _ (m m' : NetworkService) (key : String) (device : RonDevice) (own : device.device_id ≡ key)
    (written : m'.registry ≡ put m.registry key device) (l : IsLogged m) where
  at : (k : String) → get m'.registry k ≡ (if str_eq key k then some device else get m.registry k)
  at k = ap (λ d. get d k) written ∙ get-put m.registry key k device

  named_after : (k : String) (d : RonDevice) → get m'.registry k ≡ some d → d.device_id ≡ k
  named_after k d e = ground (arith, at k, e, l.named k d, own, eq_iff key k)

  -- A device whose state stays, without an event.
  kept-IsLogged :
      events_of m' ≡ events_of m
      → device.connection_state ≡ state_of (get m.registry key)
      → IsLogged m'
  kept-IsLogged same e = record {
    logged = λ k.
        ap (λ x. replay k DeviceConnectionState.unknown x.0) same
        ∙ l.logged k
        ∙ ground (arith, at k, e, eq_iff key k, ap (λ (j : String). get m.registry j));
    delivered_once = same_due m m' same l.delivered_once;
    named = named_after;
  }

  moved-IsLogged :
      (previous : DeviceConnectionState) (now : ℕ)
      → events_of m' ≡ events_of (announced m (transition_events device previous now))
      → device.connection_state ≢ DeviceConnectionState.unknown
      → previous ≡ state_of (get m.registry key)
      → IsLogged m'
  moved-IsLogged previous now more known before = record {
    logged = λ k.
        ap (λ x. replay k DeviceConnectionState.unknown x.0) more
        ∙ replay-append k DeviceConnectionState.unknown m.made _
        ∙ rw (l.logged k) (
            replay-transition_events k device previous _ now known (λ same. sym (
              before
              ∙ ap (λ (j : String). state_of (get m.registry j)) (sym own ∙ (eq_iff _ _).0 same)))
            ∙ rw own (ground (arith, at k)));
    delivered_once = same_due (announced m (transition_events device previous now)) m' more (
        more_due m.made m.published m.unpublished (transition_events device previous now)
          l.delivered_once);
    named = named_after;
  }

pub silent-IsLogged :
    (m m' : NetworkService)
    → IsLogged m
    → m'.registry ≡ m.registry
    → events_of m' ≡ events_of m
    → IsLogged m'
silent-IsLogged m m' l same quiet = record {
  logged = λ k. ap (λ x. replay k DeviceConnectionState.unknown x.0) quiet ∙ rw same (l.logged k);
  delivered_once = same_due m m' quiet l.delivered_once;
  named = λ k d e. l.named k d (ap (λ r. get r k) (sym same) ∙ e);
}

pub IsLogged-if :
    (m m' : NetworkService) (b : Bool) → IsLogged m → IsLogged m' → IsLogged (if b then m else m')
IsLogged-if m m' true l l' = l
IsLogged-if m m' false l l' = l'

pub set_network_available-IsLogged :
    (m : NetworkService) (available : Bool) (now : ℕ)
    → IsLogged m
    → IsLogged (set_network_available m available now)
unfolding set_network_available replay heard get
set_network_available-IsLogged m available now l =
    let event : RonEvent = record {
      type = if available then network_available else network_unavailable;
      payload = ("available", if available then "True" else "False") ∷ [];
      created_at = now;
    } in
    IsLogged-if m (announced (record m { available = available }) (event ∷ []))
      (same_bool m.available available) l
      (record {
        logged = λ k.
            replay-append k DeviceConnectionState.unknown m.made (event ∷ [])
            ∙ rw (l.logged k) refl;
        delivered_once = more_due m.made m.published m.unpublished (event ∷ []) l.delivered_once;
        named = l.named;
      })

same_parts :
    (z x : RonEvent) (zs rest : List RonEvent)
    → ◌≡◌ {A = Option (RonEvent × List RonEvent)} (some (z, zs)) (some (x, rest))
    → (z ≡ x) × (zs ≡ rest)
same_parts z x zs rest e = (ground arith, ground arith)

take_out-Perm :
    (n : ℕ) (xs : List RonEvent) (x : RonEvent) (rest : List RonEvent)
    → take_out n xs ≡ some (x, rest)
    → Perm xs (x ∷ rest)
unfolding take_out
take_out-Perm n [] x rest e = ground arith
take_out-Perm zero (y ∷ ys) x rest e =
    let first : y ≡ x = ground arith in
    let others : ys ≡ rest = ground arith in rw (first, others) (Perm.refl (x ∷ rest))
take_out-Perm (suc n) (y ∷ ys) x rest e = elim (Option-cases (take_out n ys)) [
  | inl nothing ↦ ground (arith, nothing)
  | inr ((z, zs), found) ↦
      let (first, others) = same_parts z x (y ∷ zs) rest (rw found at e) in
      subst (λ r. Perm (y ∷ ys) (x ∷ r)) others
        (Perm.trans
          (Perm.cons y (subst (λ w. Perm ys (w ∷ zs)) first (take_out-Perm n ys z zs found)))
          (Perm.swap x y zs))
]

pub publish_next-IsLogged : (m : NetworkService) (n : ℕ) → IsLogged m → IsLogged (publish_next m n)
unfolding publish_next
publish_next-IsLogged m n l = elim (Option-cases (take_out n m.unpublished)) [
  | inl nothing ↦ rw nothing l
  | inr ((event, rest), e) ↦ rw e (record {
    logged = l.logged;
    delivered_once = subst (Perm m.made) (sym (append_assoc m.published (event ∷ []) rest)) (
        Perm.trans l.delivered_once
          (Perm.append_left m.published (take_out-Perm n m.unpublished event rest e)));
    named = l.named;
  })
]

merged_own :
    (key : String) (device : RonDevice) (o : Option RonDevice)
    → ((d : RonDevice) → o ≡ some d → d.device_id ≡ key)
    → (merged key device o).device_id ≡ key
unfolding merged
merged_own key device none h = refl
merged_own key device (some d) h = h d refl

merged_state :
    (key : String) (device : RonDevice) (o : Option RonDevice)
    → device.connection_state ≡ DeviceConnectionState.unknown
    → (merged key device o).connection_state ≡ state_of o
unfolding merged
merged_state key device none h = h
merged_state key device (some d) h = refl

module _ (m : NetworkService) (l : IsLogged m) where
  named_new : (key : String) → (known_or_new m.registry key).device_id ≡ key
  unfolding known_or_new
  named_new key = elim (Option-cases (get m.registry key)) [
    | inl absent ↦ rw absent refl
    | inr (d, found) ↦ rw found (l.named key d found)
  ]

  state_new :
      (key : String)
      → (known_or_new m.registry key).connection_state ≡ state_of (get m.registry key)
  unfolding known_or_new
  state_new key = ground arith

  pub presence-IsLogged :
      (device_id : String) (p : Presence) (now : ℕ) (s : DeviceConnectionState)
      → p.state ≡ some s
      → s ≢ DeviceConnectionState.unknown
      → IsLogged (presence m device_id p now).1
  unfolding present
  presence-IsLogged device_id p now s e known =
      elim (Result-cases (normalise_device_id device_id)) [
        | inl (key, valid) ↦ rw (presence_valid m device_id p now key valid) (
            moved-IsLogged m _ key (present now p (known_or_new m.registry key)) (named_new key)
              refl l (known_or_new m.registry key).connection_state now refl
              (λ b.
                known
                  (ap (λ o. given o (known_or_new m.registry key).connection_state) (sym e) ∙ b))
              (state_new key))
        | inr (error, invalid) ↦ rw (presence_invalid m device_id p now error invalid) l
      ]

  pub registered-IsLogged :
      {A : Type 0} (device : RonDevice)
      (next : NetworkService → Result DeviceError A × NetworkService)
      → device.connection_state ≡ DeviceConnectionState.unknown
      → ((m' : NetworkService) → IsLogged m' → IsLogged (next m').1)
      → IsLogged (registered m device next).1
  registered-IsLogged device next new follows =
      elim (Result-cases (normalise_device_id device.device_id)) [
        | inl (key, valid) ↦ rw (registered_valid m device next key valid) (
            follows _ (
              kept-IsLogged m _ key (merged key device (get m.registry key))
                (merged_own key device (get m.registry key) (l.named key)) refl l refl
                (merged_state key device (get m.registry key) new)))
        | inr (error, invalid) ↦ rw (registered_invalid m device next error invalid) l
      ]
