-- ===== src/Core/Tests.antt =====
-- One event after three operations: the witness of the theorem on the coordinator.
use ron_personal_assistant.Prelude.{◌≡◌, [], ◌∷◌, err}
use ron_personal_assistant.Core.{RonEvent, shutdown, speech_level, new_coordinator, publish}
use ron_personal_assistant.Core.Delivery.{
  subscribes, unsubscribes, operate, wants, times_called, publish_calls,
}

abbrev shuts_down : RonEvent
shuts_down = record { type = shutdown; payload = []; created_at = 4 }

publish_calls_example :
    times_called 7 (
      publish
        (λ h event. err "broken")
        (operate new_coordinator
          (subscribes shutdown 7 ∷ subscribes shutdown 7 ∷ unsubscribes speech_level 7 ∷ []))
        shuts_down)
    ≡ 1
unfolding wants
publish_calls_example =
    publish_calls (λ h event. err "broken")
      (subscribes shutdown 7 ∷ subscribes shutdown 7 ∷ unsubscribes speech_level 7 ∷ []) shuts_down
      7
