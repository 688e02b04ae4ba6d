-- ===== src/Agent/Service/Tests.antt =====
-- A service that waits for a confirmation, and the witnesses of the theorems on its dialogue.
use ron_personal_assistant.Prelude.{true, false, none, some, [], ◌∷◌, ok, str_eq}
use ron_personal_assistant.Prelude.Dict.{nat_key, text_key}
use ron_personal_assistant.Agent.Models.{ToolRisk, ToolStatus, AgentPlan, deterministic}
use ron_personal_assistant.Agent.Registry.{ToolSpec, plain}
use ron_personal_assistant.Agent.Tasks.{ended}
use ron_personal_assistant.Agent.Service.{AgentService, Surroundings}
use ron_personal_assistant.Agent.Service.Dialogue.{respond}
use ron_personal_assistant.Agent.Service.Confirmation.{Confirms, respond-Confirms}

abbrev volume : ToolSpec
volume = record {
  name = "control_volume";
  description = "Sets the volume.";
  arguments = [];
  risk = ToolRisk.reversible;
  handler = plain (λ now arguments. ok (record {
    tool_name = "control_volume";
    status = ToolStatus.success;
    message = "Volume set.";
    data_fields = arguments;
    duration_seconds = 0;
  }));
  timeout_seconds = 10;
  requires_confirmation = true;
  availability = none;
  compensator = none;
  max_output_bytes = 1024;
  run_in_background = false;
}

abbrev louder : AgentPlan
louder = record {
  tool_name = some "control_volume";
  arguments = [];
  reason = "";
  source = deterministic;
}

abbrev pub around : Surroundings
around = record {
  registry = ("control_volume", volume) ∷ [];
  json_size = λ message data_fields. some 40;
  now = 50;
  run = record {
    cancelled_before = false;
    cancelled_after = false;
    started = 50;
    checked = 51;
    returned = 52;
    finished = 53;
  };
  is_yes = λ clean. str_eq clean "confirm";
  is_no = λ clean. str_eq clean "no";
  control = λ prompt. none;
  repeats = λ clean. none;
  choice = λ clean c. none;
  plan_steps = λ prompt. (louder ∷ [], "");
  describe_plan = λ plan. "control_volume";
  error_text = λ e. "";
}

abbrev pub asking : AgentService
asking = record {
  pending_confirmation = some (record { prompt = "louder"; plans = louder ∷ []; expires_at = 90 });
  pending_clarification = none;
  last_successful_plans = [];
  submitted_plans = [];
  tasks = record {
    maximum_tasks = 16;
    retained_tasks = 16;
    records = [];
    tracked = [];
    queue = [];
    notifications = [];
    finished = [];
    progress = [];
    next_id = 1;
    stopping = false;
    place = ended;
    journal = none;
  };
  handed = [];
}

respond-Confirms_example : Confirms around asking "confirm" (respond around asking "confirm").1
respond-Confirms_example = respond-Confirms around asking "confirm"
