-- ===== src/Ai/Hybrid/Provenance.antt =====
-- Who answers, by ron/ai/hybrid_client.py: an answer never comes from both clients.
use ron_personal_assistant.Prelude.{
  String, ◌≡◌, ◌⊎◌, inl, inr, refl, sym, ap, ◌∙◌, Bool, true, false, List, [], ◌∷◌, ◌++◌,
  if◌then◌else◌, is_truthy, keep, map, f_string, Result, ok, err,
}
use ron_personal_assistant.Prelude.Drop.{append_nil}
use ron_personal_assistant.Ai.Hybrid.{
  Raised, ai_connection_error, inference_cancelled, other_ai_error, other_exception, Call, Event,
  asks_primary, asks_fallback, hears, HybridAiClient, visible_output, heard, settle_fallback,
  try_fallback, settle_primary, stream_chat,
}

-- The visible tokens that a listener heard, and how often the fallback was asked.
unfoldable pub visible_in : List Event → List String
visible_in [] = []
visible_in (asks_primary ∷ events) = visible_in events
visible_in (asks_fallback ∷ events) = visible_in events
visible_in (hears token ∷ events) =
    let rest = visible_in events in if is_truthy token then token ∷ rest else rest

unfoldable pub asks_for_fallback : List Event → Bool
asks_for_fallback [] = false
asks_for_fallback (asks_primary ∷ events) = asks_for_fallback events
asks_for_fallback (asks_fallback ∷ events) = true
asks_for_fallback (hears token ∷ events) = asks_for_fallback events

abbrev pub visible : List String → List String
visible tokens = keep is_truthy tokens

visible_in-heard :
    (tokens : List String) (events : List Event)
    → visible_in (map hears tokens ++ events) ≡ visible tokens ++ visible_in events
unfolding visible_in
visible_in-heard [] events = refl
visible_in-heard (token ∷ tokens) events =
    go _ _ _ (is_truthy token) (visible_in-heard tokens events)
  where
    go :
        (xs ys zs : List String) (b : Bool)
        → xs ≡ ys ++ zs
        → (if b then token ∷ xs else xs) ≡ (if b then token ∷ ys else ys) ++ zs
    go xs ys zs true e = ap (λ t. token ∷ t) e
    go xs ys zs false e = e

asks-heard :
    (tokens : List String) (events : List Event)
    → asks_for_fallback (map hears tokens ++ events) ≡ asks_for_fallback events
unfolding asks_for_fallback
asks-heard [] events = refl
asks-heard (token ∷ tokens) events = asks-heard tokens events

visible_output_lem :
    (seen : Bool) (tokens : List String)
    → visible_output seen tokens ≡ false
    → (seen ≡ false) × (visible tokens ≡ [])
unfolding visible_output
visible_output_lem seen [] e = (e, refl)
visible_output_lem true (token ∷ tokens) e = let seen = (visible_output_lem true tokens e).0 in cc
visible_output_lem false (token ∷ tokens) e =
    let (unseen, nothing) = visible_output_lem (is_truthy token) tokens e in
    (refl, rw unseen nothing)

module _ {Request : Type 0} (h : HybridAiClient Request) (request : Request) where
  abbrev pub cloud : Call
  cloud = h.primary.stream_chat request

  abbrev pub local : Call
  local = h.fallback.stream_chat request

  abbrev pub Turn : Type 0
  Turn = (Result Raised String × HybridAiClient Request) × List Event

  -- The cloud alone has answered, or failed.
  abbrev pub FromCloud : Turn → Type 0
  FromCloud ((result, h'), events) =
      (asks_for_fallback events ≡ false)
      × (visible_in events ≡ visible cloud.tokens)
      × (result ≡ cloud.outcome)
      × ((text : String) → result ≡ ok text → h'.last_provider ≡ h.primary.provider_label)

  -- The cloud was out and had shown nothing, and the local model has answered, or failed.
  abbrev pub FromLocal : Turn → Type 0
  FromLocal ((result, h'), events) =
      (asks_for_fallback events ≡ true)
      × ((name : String) × (cloud.outcome ≡ err (ai_connection_error name)))
      × (visible cloud.tokens ≡ [])
      × (visible_in events ≡ visible local.tokens)
      × ((text : String)
          → result ≡ ok text
          → (local.outcome ≡ ok text)
            × (h'.last_provider ≡ f_string (h.fallback.provider_label ∷ " (fallback in use)" ∷ [])))

  quiet_cloud :
      (result : Result Raised String) (h' : HybridAiClient Request)
      → result ≡ cloud.outcome
      → ((text : String) → result ≡ ok text → h'.last_provider ≡ h.primary.provider_label)
      → FromCloud ((result, h'), asks_primary ∷ heard true cloud.tokens ++ [])
  unfolding visible_in asks_for_fallback
  quiet_cloud result h' e label = (
    asks-heard cloud.tokens [],
    visible_in-heard cloud.tokens [] ∙ append_nil (visible cloud.tokens),
    e,
    label,
  )

  local_label :
      (outcome : Result Raised String) (text : String)
      → (settle_fallback h outcome).0 ≡ ok text
      → (outcome ≡ ok text)
        × ((settle_fallback h outcome).1.last_provider
            ≡ f_string (h.fallback.provider_label ∷ " (fallback in use)" ∷ []))
  unfolding settle_fallback
  local_label (ok given) text e = (e, refl)
  local_label (err inference_cancelled) text e = cc
  local_label (err (ai_connection_error name)) text e = cc
  local_label (err (other_ai_error name)) text e = cc
  local_label (err (other_exception name)) text e = cc

  local_answer :
      (name : String)
      → cloud.outcome ≡ err (ai_connection_error name)
      → visible_output false cloud.tokens ≡ false
      → let (turn, events) = try_fallback h request true in
        FromLocal (turn, asks_primary ∷ heard true cloud.tokens ++ events)
  unfolding visible_in asks_for_fallback try_fallback settle_fallback
  local_answer name e unseen = (
    asks-heard cloud.tokens _,
    (name, e),
    (visible_output_lem false cloud.tokens unseen).1,
    visible_in-heard cloud.tokens _
        ∙ ap (λ t. t ++ visible_in (map hears local.tokens))
            (visible_output_lem false cloud.tokens unseen).1
        ∙ ap visible_in (sym (append_nil (map hears local.tokens)))
        ∙ visible_in-heard local.tokens []
        ∙ append_nil (visible local.tokens),
    local_label local.outcome,
  )

  settled :
      (outcome : Result Raised String) (flag : Bool)
      → cloud.outcome ≡ outcome
      → visible_output false cloud.tokens ≡ flag
      → let (turn, events) = settle_primary h request true flag outcome in
        let all : Turn = (turn, asks_primary ∷ heard true cloud.tokens ++ events) in
        FromCloud all ⊎ FromLocal all
  unfolding settle_primary
  settled (ok text) flag e f = inl (
      quiet_cloud _ (record h { last_provider = h.primary.provider_label }) (sym e)
        (λ text k. refl))
  settled (err inference_cancelled) flag e f = inl (quiet_cloud _ h (sym e) (λ text k. cc))
  settled (err (other_ai_error name)) flag e f = inl (quiet_cloud _ h (sym e) (λ text k. cc))
  settled (err (other_exception name)) flag e f = inl (quiet_cloud _ h (sym e) (λ text k. cc))
  settled (err (ai_connection_error name)) true e f = inl (quiet_cloud _ h (sym e) (λ text k. cc))
  settled (err (ai_connection_error name)) false e f = inr (local_answer name e f)

  -- With a listener, either the fallback is not asked, what is heard is what the cloud delivered and
  -- the outcome is the cloud's; or the cloud could not be reached and had delivered nothing visible,
  -- what is heard is what the local model delivered, and a text that is returned is the local model's.
  -- In both cases the provider that is noted with a text is the one that gave it.
  pub one_voice : let turn = stream_chat h request true in FromCloud turn ⊎ FromLocal turn
  unfolding stream_chat
  one_voice = settled cloud.outcome (visible_output false cloud.tokens) refl refl
