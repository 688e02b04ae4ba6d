-- ===== src/Agent/Registry.antt =====
-- ron/agent/registry.py: the only component that calls a tool's handler.
-- A handler, a compensator and an availability check are fields of the tool, as in the source; each
-- is a function of the clock's reading too, since what it does depends on the world at that time.
pub mod Gate
pub mod Admission
mod Tests
use Prim.Native.String.{compare}
use text.Mathlib.Text.{is_lt}
use ron_personal_assistant.Prelude.{
  ℕ, ◌+◌, ◌-◌, String, Bool, true, false, ◌&&◌, ◌||◌, not, Option, none, some, List, [], ◌∷◌, map,
  ltb, leb, if◌then◌else◌, f_string, Result, ok, err, ◌>>=◌, ◌>>◌,
}
use ron_personal_assistant.Prelude.Dict.{Dict, text_key, get, put, contains}
use ron_personal_assistant.Prelude.Int.{ℤ}
use ron_personal_assistant.Agent.Models.{
  ToolArgument, ToolRisk, ToolStatus, Value, flag, Arguments, ToolResult, validate,
}

-- How a call of foreign code ends when it raises.
pub data Raised : Type 0 where
  tool_cancelled tool_timed_out other_exception : Raised

-- `ToolExecutionContext`; the event is read through `Run`.
pub record ToolExecutionContext : Type 0 where
  pub deadline : ℕ
  pub max_output_bytes : ℕ

-- `_call_handler` passes the context if the second parameter is named so.
pub data Callable (A : Type 0) : Type 0 where
  plain : (ℕ → A → Result Raised ToolResult) → Callable A
  with_context : (ℕ → A → ToolExecutionContext → Result Raised ToolResult) → Callable A

pub record ToolSpec : Type 0 where
  pub name : String
  pub description : String
  pub arguments : List (String × ToolArgument)
  pub risk : ToolRisk
  pub handler : Callable Arguments
  pub timeout_seconds : ℕ
  pub requires_confirmation : Bool
  pub availability : Option (ℕ → Result Raised (Bool × String))
  pub compensator : Option (Callable ToolResult)
  pub max_output_bytes : ℕ
  pub run_in_background : Bool

abbrev pub ToolRegistry : Type 0
ToolRegistry = Dict String ToolSpec

-- `register`
unfoldable pub register : ToolRegistry → ToolSpec → Result String ToolRegistry
register tools tool =
    if contains tools tool.name
    then err (f_string ("Tool '" ∷ tool.name ∷ "' is already registered" ∷ []))
    else ok (put tools tool.name tool)

earliest : String → Option String → String
earliest name none = name
earliest name (some other) = if is_lt (compare name other) then name else other

-- `sorted(set(arguments) - set(tool.arguments))[0]`, if there is one
unfoldable pub unknown_argument : List (String × ToolArgument) → Arguments → Option String
unfolding earliest
unknown_argument declared [] = none
unknown_argument declared ((name, value) ∷ given) =
    let rest = unknown_argument declared given in
    if contains declared name then rest else some (earliest name rest)

-- The value of one declared argument: `none` where it is left out and need not be given.
unfoldable pub validated_value : String → ToolArgument → Option Value → Result String (Option Value)
validated_value name argument none =
    if argument.required then err (f_string ("missing argument: " ∷ name ∷ [])) else ok none
validated_value name argument (some value) = do v ← validate argument name value; ok (some v)

abbrev with_value : String → Option Value → Arguments → Arguments
with_value name none rest = rest
with_value name (some v) rest = (name, v) ∷ rest

unfoldable pub validated_values : List (String × ToolArgument) → Arguments → Result String Arguments
validated_values [] given = ok []
validated_values ((name, argument) ∷ declared) given = do
  v ← validated_value name argument (get given name)
  rest ← validated_values declared given
  ok (with_value name v rest)

-- `_validate_arguments`; the text is that of the `ValueError`
unfoldable pub validate_arguments : ToolSpec → Arguments → Result String Arguments
validate_arguments tool given = elim (unknown_argument tool.arguments given) [
  | some name ↦ err (f_string ("unexpected argument: " ∷ name ∷ []))
  | none ↦ validated_values tool.arguments given
]

abbrev tool_result : String → ToolStatus → String → ToolResult
tool_result name status message = record {
  tool_name = name;
  status = status;
  message = message;
  data_fields = [];
  duration_seconds = 0;
}

-- What the availability check says; its exception counts as "no".
unfoldable pub availability_at : ToolSpec → String → ℕ → Bool × String
availability_at tool unavailable now = elim tool.availability [
  | none ↦ (true, "ready")
  | some check ↦ elim (check now) [ ok answer ↦ answer | err _ ↦ (false, unavailable) ]
]

preflight_tool : Option ToolSpec → String → Arguments → Bool → ℕ → ToolResult
preflight_tool none name arguments confirmed now =
    tool_result name ToolStatus.unsupported "I don't have an approved tool for that action yet."
preflight_tool (some tool) name arguments confirmed now = elim (validate_arguments tool arguments) [
  | err error ↦
      tool_result name ToolStatus.failed
        (f_string ("I rejected unsafe or invalid tool arguments: " ∷ error ∷ []))
  | ok _ ↦
      if tool.requires_confirmation && not confirmed
      then tool_result name ToolStatus.confirmation_required
          (f_string ("The " ∷ name ∷ " action requires your confirmation before it can run." ∷ []))
      else let (available, reason) =
          availability_at tool "Its required local integration is unavailable." now in
        if not available
        then tool_result name ToolStatus.unsupported reason
        else tool_result name ToolStatus.ready
            (f_string ("The " ∷ name ∷ " step passed preflight validation." ∷ []))
]

-- `preflight`, at a reading of the clock
unfoldable pub preflight : ToolRegistry → String → Arguments → Bool → ℕ → ToolResult
unfolding preflight_tool
preflight tools name arguments confirmed now =
    preflight_tool (get tools name) name arguments confirmed now

abbrev pub is_ready : ToolStatus → Bool
is_ready ToolStatus.ready = true
is_ready _ = false

-- What a run meets: whether the cancel event is set at each checkpoint, and the clock's readings.
pub record Run : Type 0 where
  pub cancelled_before : Bool
  pub cancelled_after : Bool
  pub started : ℕ
  pub checked : ℕ
  pub returned : ℕ
  pub finished : ℕ

-- `ToolExecutionContext.checkpoint`
unfoldable pub checkpoint : ToolExecutionContext → Bool → ℕ → Result Raised (Unit {0})
checkpoint context cancelled now =
    if cancelled
    then err tool_cancelled
    else if leb context.deadline now
    then err tool_timed_out
    else ok tt

-- `_call_handler`
unfoldable pub call_handler :
    {A : Type 0} → Callable A → ℕ → A → ToolExecutionContext → Result Raised ToolResult
call_handler (plain f) now first context = f now first
call_handler (with_context f) now first context = f now first context

abbrev context_of : ToolSpec → ℕ → ToolExecutionContext
context_of tool started = record {
  deadline = started + tool.timeout_seconds;
  max_output_bytes = tool.max_output_bytes;
}

abbrev pub Calls : Type 0
Calls = List (String × Arguments)

-- The `try` of `execute`: what it raises or returns, and the calls that it made of the handler.
attempt : ToolSpec → Arguments → Run → Result Raised ToolResult × Calls
attempt tool validated run =
    let context = context_of tool run.started in
    elim (checkpoint context run.cancelled_before run.checked) [
      | err raised ↦ (err raised, [])
      | ok _ ↦ (
        (do
          result ← call_handler tool.handler run.checked validated context
          checkpoint context run.cancelled_after run.returned
          ok result),
        (tool.name, validated) ∷ [],
      )
    ]

abbrev stopped : String → Run → ToolStatus → String → ToolResult
stopped name run status message = record {
  tool_name = name;
  status = status;
  message = message;
  data_fields = [];
  duration_seconds = run.finished - run.started;
}

-- The `except` clauses.
handled : String → Run → Raised → ToolResult
handled name run tool_cancelled =
    stopped name run ToolStatus.cancelled
      (f_string ("The " ∷ name ∷ " step stopped at a safe cancellation point." ∷ []))
handled name run tool_timed_out =
    stopped name run ToolStatus.timed_out
      (f_string ("The " ∷ name ∷ " step reached its safety deadline and stopped." ∷ []))
handled name run other_exception =
    stopped name run ToolStatus.failed
      (f_string ("The approved " ∷ name ∷ " tool failed safely without completing." ∷ []))

-- The size in bytes of `json.dumps` of a message and its data; `none` if that raises.
module _ (json_size : String → Arguments → Option ℕ) where
  bounded : ToolSpec → Run → ToolResult → ToolResult
  bounded tool run result = elim (json_size result.message result.data_fields) [
    | none ↦
        stopped tool.name run ToolStatus.failed
          (f_string ("The " ∷ tool.name ∷ " tool returned invalid structured output." ∷ []))
    | some size ↦
        if ltb tool.max_output_bytes size
        then stopped tool.name run ToolStatus.failed
            (f_string ("The " ∷ tool.name ∷ " tool exceeded its output safety limit." ∷ []))
        else record result { tool_name = tool.name; duration_seconds = run.finished - run.started }
  ]

  settle : ToolSpec → String → Run → Result Raised ToolResult → ToolResult
  settle tool name run (err raised) = handled name run raised
  settle tool name run (ok result) = bounded tool run result

  run_tool : ToolSpec → String → Arguments → Run → ToolResult × Calls
  run_tool tool name validated run =
      let (outcome, calls) = attempt tool validated run in (settle tool name run outcome, calls)

  -- `execute`. After a preflight that is READY the look-up and the validation cannot fail.
  unfoldable pub execute : ToolRegistry → String → Arguments → Bool → Run → ToolResult × Calls
  unfolding run_tool settle bounded attempt handled
  execute tools name arguments confirmed run =
      let checked = preflight tools name arguments confirmed run.started in
      if not (is_ready checked.status) then (checked, []) else elim (get tools name) [
        | none ↦ (checked, [])
        | some tool ↦ elim (validate_arguments tool arguments) [
          | err _ ↦ (checked, [])
          | ok validated ↦ run_tool tool name validated run
        ]
      ]

-- `result.data.get("changed") is False`
unchanged : ToolResult → Bool
unchanged result = elim (get result.data_fields "changed") [
  | some (flag changed) ↦ not changed
  | _ ↦ false
]

compensated : String → ℕ → Result Raised ToolResult → ToolResult
compensated name duration (ok result) = result
compensated name duration (err _) = record {
  tool_name = name;
  status = ToolStatus.failed;
  message = f_string ("The " ∷ name ∷ " rollback could not complete safely." ∷ []);
  data_fields = [];
  duration_seconds = duration;
}

compensate_tool : Option ToolSpec → String → ToolResult → ℕ → ℕ → Option ToolResult
compensate_tool none name result started finished = none
compensate_tool (some tool) name result started finished = elim tool.compensator [
  | none ↦ none
  | some compensator ↦
      if unchanged result
      then none
      else some (
          compensated name (finished - started)
            (call_handler compensator started result (context_of tool started)))
]

-- `compensate`, between two readings of the clock
unfoldable pub compensate : ToolRegistry → String → ToolResult → ℕ → ℕ → Option ToolResult
unfolding compensate_tool compensated unchanged
compensate tools name result started finished =
    compensate_tool (get tools name) name result started finished
