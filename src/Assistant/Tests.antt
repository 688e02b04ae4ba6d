-- ===== src/Assistant/Tests.antt =====
-- An assistant whose agent waits for a confirmation: tests, and the witness of the theorem on
-- ron/assistant.py.
use ron_personal_assistant.Prelude.{◌≡◌, ◌⊎◌, true, false, none, some}
use ron_personal_assistant.Chat.Turn.Tests.{settings, notes, client, history}
use ron_personal_assistant.Agent.Service.Tests.{around as surroundings, asking}
use ron_personal_assistant.Memory.Service.Tests.{around, with_tea}
use ron_personal_assistant.Memory.Dialogue.Tests.{patterns}
use ron_personal_assistant.Routing.{agent, RoutingDecision}
use ron_personal_assistant.Routing.Tests.{read, router}
use ron_personal_assistant.Assistant.{RonAssistant, Given, respond}
use ron_personal_assistant.Assistant.Gate.{handed_by, Wanted, respond-Acts}

abbrev given : Given
given = record {
  settings = settings;
  provider = notes;
  stream_chat = client;
  around = around;
  patterns = patterns;
  candidate_from_user = λ user. none;
  surroundings = surroundings;
  router = router;
  readings = read;
  cancelled_before = false;
  cancelled_after = false;
}

abbrev ron : RonAssistant
ron = record {
  history = history;
  agent = some asking;
  memory = some (record { memory = with_tea; pending = none });
  last_route = none;
}

respond-Acts_example :
    let s' = (respond given "confirm" true false ron).1 in
    (handed_by s'.agent ≡ handed_by ron.agent)
    ⊎ ((d : RoutingDecision) × (s'.last_route ≡ some d)
        × (d.destination ≡ agent)
        × Wanted given "confirm" ron.agent)
respond-Acts_example = respond-Acts given "confirm" true false ron
