-- ===== src/Agent/Registry/Tests.antt =====
-- One registered tool, and the witnesses of the theorems on the registry.
use ron_personal_assistant.Prelude.{
  ℕ, ◌+◌, ◌<◌, String, ◌≡◌, ◌⊎◌, refl, true, false, Option, none, some, [], ◌∷◌, All, ok,
}
use ron_personal_assistant.Prelude.Int.{pos}
use ron_personal_assistant.Prelude.Dict.{text_key, get, contains}
use ron_personal_assistant.Agent.Models.{
  ToolArgumentKind, ToolArgument, ToolRisk, ToolStatus, whole, Arguments, validate,
}
use ron_personal_assistant.Agent.Registry.{
  ToolSpec, ToolRegistry, plain, unknown_argument, validated_value, validated_values,
  validate_arguments, availability_at, preflight, Run, checkpoint, call_handler, execute,
}
use ron_personal_assistant.Agent.Registry.Gate.{IsCleared, FitsIn, execute_calls, execute_success}
use ron_personal_assistant.Agent.Registry.Admission.{IsAdmitted, validate_arguments-IsAdmitted}

abbrev level : ToolArgument
level = record {
  kind = ToolArgumentKind.integer;
  choices = [];
  minimum = some (pos 0);
  maximum = some (pos 100);
  required = true;
  minimum_length = none;
  maximum_length = none;
}

abbrev volume : ToolSpec
volume = record {
  name = "control_volume";
  description = "Sets the volume.";
  arguments = ("level", level) ∷ [];
  risk = ToolRisk.reversible;
  handler = plain (λ now arguments. ok (record {
    tool_name = "control_volume";
    status = ToolStatus.success;
    message = "Volume set.";
    data_fields = arguments;
    duration_seconds = 0;
  }));
  timeout_seconds = 10;
  requires_confirmation = true;
  availability = none;
  compensator = none;
  max_output_bytes = 1024;
  run_in_background = false;
}

abbrev tools : ToolRegistry
tools = ("control_volume", volume) ∷ []

abbrev half : Arguments
half = ("level", whole (pos 50)) ∷ []

abbrev quick : Run
quick = record {
  cancelled_before = false;
  cancelled_after = false;
  started = 0;
  checked = 1;
  returned = 2;
  finished = 3;
}

abbrev sizes : String → Arguments → Option ℕ
sizes message data_fields = some 40

half_valid : validate_arguments volume half ≡ ok half
unfolding validate_arguments unknown_argument validated_values validated_value validate get
half_valid = refl

validate_arguments-IsAdmitted_example :
    All (λ entry. contains volume.arguments entry.0 ≡ true) half
    × IsAdmitted volume.arguments half half
validate_arguments-IsAdmitted_example = validate_arguments-IsAdmitted volume half half_valid

-- Without a confirmation nothing is called.
unconfirmed : (execute sizes tools "control_volume" half false quick).1 ≡ []
unfolding execute preflight validate_arguments unknown_argument validated_values validated_value
    validate get
unconfirmed = refl

execute_calls_example :
    ((execute sizes tools "control_volume" half true quick).1 ≡ [])
    ⊎ ((tool : ToolSpec) × (validated : Arguments) × IsCleared tools "control_volume" half true 0
          tool validated
        × (false ≡ false)
        × ((execute sizes tools "control_volume" half true quick).1 ≡ (tool.name, validated) ∷ []))
execute_calls_example = execute_calls sizes tools "control_volume" half true quick

confirmed_succeeds :
    (execute sizes tools "control_volume" half true quick).0.status ≡ ToolStatus.success
unfolding execute preflight validate_arguments unknown_argument validated_values validated_value
    validate get availability_at checkpoint call_handler
confirmed_succeeds = refl

execute_success_example :
    let (result, calls) = execute sizes tools "control_volume" half true quick in
    (tool : ToolSpec) × (validated : Arguments) × IsCleared tools "control_volume" half true 0 tool
      validated
    × (calls ≡ (tool.name, validated) ∷ [])
    × (quick.cancelled_before ≡ false)
    × (quick.cancelled_after ≡ false)
    × (2 < 0 + tool.timeout_seconds)
    × FitsIn tool.max_output_bytes (sizes result.message result.data_fields)
execute_success_example =
    execute_success sizes tools "control_volume" half true quick confirmed_succeeds
