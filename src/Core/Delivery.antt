-- ===== src/Core/Delivery.antt =====
-- Whom the coordinator of ron/core.py calls, after any subscriptions and whatever the handlers raise.
use ron_personal_assistant.Prelude.{
  ℕ, ◌+◌, ◌-◌, ◌≤◌, String, ◌≡◌, refl, ap, ◌∙◌, inl, inr, Bool, true, false, ◌&&◌, none, some, List,
  [], ◌∷◌, ◌++◌, arith, ◌==◌, ==_iff, if◌then◌else◌, Bool-cases, Result,
}
use ron_personal_assistant.Prelude.Dict.{nat_key, get, put, get-put}
use ron_personal_assistant.Core.{
  EventType, event_key, RonEvent, Coordinator, new_coordinator, handlers_of, is_handler, subscribe,
  remove_first, unsubscribe, deliver, publish,
}

-- How often a handler stands in a list, and in the calls of a `publish`.
unfoldable pub times : ℕ → List ℕ → ℕ
times h [] = 0
times h (x ∷ xs) = let rest = times h xs in if x == h then rest + 1 else rest

unfoldable pub times_called : ℕ → List (ℕ × RonEvent) → ℕ
times_called h [] = 0
times_called h ((x, event) ∷ calls) =
    let rest = times_called h calls in if x == h then rest + 1 else rest

times-append :
    (h x : ℕ) (xs : List ℕ)
    → times h (xs ++ x ∷ []) ≡ (if x == h then times h xs + 1 else times h xs)
unfolding times
times-append h x [] = ground arith
times-append h x (y ∷ ys) = ground (arith, times-append h x ys)

times-remove_first :
    (h x : ℕ) (xs : List ℕ)
    → times h (remove_first x xs) ≡ (if x == h then times h xs - 1 else times h xs)
unfolding times remove_first
times-remove_first h x [] = ground arith
times-remove_first h x (y ∷ ys) =
    ground (arith, times-remove_first h x ys, ==_iff y x, ==_iff y h, ==_iff x h)

times-is_handler : (h : ℕ) (xs : List ℕ) → is_handler h xs ≡ false → times h xs ≡ 0
unfolding times
times-is_handler h [] e = refl
times-is_handler h (x ∷ xs) e = ground (arith, times-is_handler h xs)

abbrev pub once : Bool → ℕ
once b = if b then 1 else 0

times-pos : (h : ℕ) (xs : List ℕ) → is_handler h xs ≡ true → 1 ≤ times h xs
unfolding times
times-pos h [] e = ground arith
times-pos h (x ∷ xs) e = ground (arith, times-pos h xs)

-- Subscribing once more: the list holds the handler once.
times-added :
    (h h' : ℕ) (xs : List ℕ) (before : Bool)
    → times h xs ≡ once before
    → times h (if is_handler h' xs then xs else xs ++ h' ∷ [])
      ≡ once (if h' == h then true else before)
times-added h h' xs before e = elim (Bool-cases (is_handler h' xs)) [
  | inl known ↦
      rw known (ground (arith, times-pos h' xs known, e, ==_iff h' h, ap (λ i. times i xs)))
  | inr new ↦ rw new (
      times-append h h' xs
      ∙ ground (arith, times-is_handler h' xs new, e, ==_iff h' h, ap (λ i. times i xs)))
]

times_called-deliver :
    (react : ℕ → RonEvent → Result String (Unit {0})) (event : RonEvent) (h : ℕ) (hs : List ℕ)
    → times_called h (deliver react event hs) ≡ times h hs
unfolding times_called deliver times
times_called-deliver react event h [] = refl
times_called-deliver react event h (x ∷ xs) = ground (arith, times_called-deliver react event h xs)

pub data Operation : Type 0 where
  subscribes unsubscribes : EventType → ℕ → Operation

unfoldable pub operate : Coordinator → List Operation → Coordinator
operate c [] = c
operate c (subscribes t h ∷ ops) = operate (subscribe c t h) ops
operate c (unsubscribes t h ∷ ops) = operate (unsubscribe c t h) ops

-- Whether the last operation on this handler and event type is a subscription.
unfoldable pub wants : Bool → EventType → ℕ → List Operation → Bool
wants before t h [] = before
wants before t h (subscribes t' h' ∷ ops) =
    wants (if event_key t' == event_key t && h' == h then true else before) t h ops
wants before t h (unsubscribes t' h' ∷ ops) =
    wants (if event_key t' == event_key t && h' == h then false else before) t h ops

handlers_of-put :
    (c c' : Coordinator) (t' t : EventType) (hs : List ℕ)
    → c'.handlers ≡ put c.handlers (event_key t') hs
    → handlers_of c' t ≡ (if event_key t' == event_key t then hs else handlers_of c t)
unfolding handlers_of
handlers_of-put c c' t' t hs e =
    let at = ap (λ d. get d (event_key t)) e ∙ get-put c.handlers (event_key t') (event_key t) hs in
    ground (arith, at)

same_list :
    (c : Coordinator) (t' t : EventType)
    → event_key t' ≡ event_key t
    → handlers_of c t' ≡ handlers_of c t
unfolding handlers_of
same_list c t' t e = ap (λ k. elim (get c.handlers k) [ none ↦ [] | some hs ↦ hs ]) e

module _ (c : Coordinator) (t' t : EventType) (h' h : ℕ) (before : Bool)
    (so_far : times h (handlers_of c t) ≡ once before) where
  times-subscribe :
      times h (handlers_of (subscribe c t' h') t)
      ≡ once (if event_key t' == event_key t && h' == h then true else before)
  unfolding subscribe
  times-subscribe = elim (Bool-cases (event_key t' == event_key t)) [
    | inl same ↦
        let list = same_list c t' t ((==_iff (event_key t') (event_key t)).0 same) in
        ap (times h) (handlers_of-put c _ t' t _ refl)
        ∙ rw same (rw list (times-added h h' (handlers_of c t) before so_far))
    | inr other ↦ ap (times h) (handlers_of-put c _ t' t _ refl) ∙ rw other so_far
  ]

  times-unsubscribe :
      times h (handlers_of (unsubscribe c t' h') t)
      ≡ once (if event_key t' == event_key t && h' == h then false else before)
  unfolding unsubscribe
  times-unsubscribe = elim (Bool-cases (event_key t' == event_key t)) [
    | inl same ↦
        let list = same_list c t' t ((==_iff (event_key t') (event_key t)).0 same) in
        ap (times h) (handlers_of-put c _ t' t _ refl)
        ∙ rw same (rw list (times-remove_first h h' (handlers_of c t) ∙ ground (arith, so_far)))
    | inr other ↦ ap (times h) (handlers_of-put c _ t' t _ refl) ∙ rw other so_far
  ]

times-operate :
    (c : Coordinator) (ops : List Operation) (t : EventType) (h : ℕ) (before : Bool)
    → times h (handlers_of c t) ≡ once before
    → times h (handlers_of (operate c ops) t) ≡ once (wants before t h ops)
unfolding operate wants
times-operate c [] t h before e = e
times-operate c (subscribes t' h' ∷ ops) t h before e =
    times-operate (subscribe c t' h') ops t h _ (times-subscribe c t' t h' h before e)
times-operate c (unsubscribes t' h' ∷ ops) t h before e =
    times-operate (unsubscribe c t' h') ops t h _ (times-unsubscribe c t' t h' h before e)

-- After any subscriptions and unsubscriptions, an event calls a handler exactly once if the last word
-- on that handler and event type was a subscription, and else never, whatever any handler raises.
pub publish_calls :
    (react : ℕ → RonEvent → Result String (Unit {0})) (ops : List Operation) (event : RonEvent)
    (h : ℕ)
    → times_called h (publish react (operate new_coordinator ops) event)
      ≡ once (wants false event.type h ops)
unfolding publish handlers_of get times
publish_calls react ops event h =
    times_called-deliver react event h (handlers_of (operate new_coordinator ops) event.type)
    ∙ times-operate new_coordinator ops event.type h false refl
