-- ===== src/Agent/Models.antt =====
-- ron/agent/models.py: the values that cross the agent's boundary, and the check of an argument.
pub mod Validation
use Prim.Native.Char.{code}
use ron_personal_assistant.Prelude.{
  ℕ, String, count, Bool, true, false, ◌&&◌, ◌||◌, not, Option, none, some, List, [], ◌∷◌, ltb,
  ◌==◌, if◌then◌else◌, is_truthy, mem_text, strip, join, decimal, f_string, Result, ok, err,
}
use ron_personal_assistant.Prelude.Int.{ℤ, pos, negsuc, ltb_ℤ}

pub data ToolArgumentKind : Type 0 where
  enum integer text : ToolArgumentKind

pub data ToolRisk : Type 0 where
  read_only reversible external destructive : ToolRisk

pub data ToolStatus : Type 0 where
  ready success failed unsupported confirmation_required clarification_required cancelled
        timed_out :
      ToolStatus

pub data AgentPlanSource : Type 0 where
  deterministic local_model no_source : AgentPlanSource

pub data AgentTaskStatus : Type 0 where
  queued running waiting resolved completed failed cancelled timed_out : AgentTaskStatus

-- A value of type `object`, as `json.loads` makes it; a float by its `repr`.
mutual
  pub data Value : Type 0 where
    null : Value
    flag : Bool → Value
    whole : ℤ → Value
    float : String → Value
    text : String → Value
    array : Values → Value
    object : Fields → Value

  pub data Values : Type 0 where
    nil : Values
    cons : Value → Values → Values

  pub data Fields : Type 0 where
    end : Fields
    field : String → Value → Fields → Fields

pub record ToolArgument : Type 0 where
  pub kind : ToolArgumentKind
  pub choices : List String
  pub minimum : Option ℤ
  pub maximum : Option ℤ
  pub required : Bool
  pub minimum_length : Option ℕ
  pub maximum_length : Option ℕ

-- `str(n)` of an integer
unfoldable pub integer_text : ℤ → String
integer_text (pos n) = decimal n
integer_text (negsuc n) = f_string ("-" ∷ decimal (ℕ.suc n) ∷ [])

-- one of "\r\n\0" occurs
unfoldable pub has_control : String → Bool
has_control String.[] = false
has_control (String.◌∷◌ c s) = (code c == 13 || code c == 10 || code c == 0) || has_control s

abbrev below : Option ℤ → ℤ → Bool
below none value = false
below (some minimum) value = ltb_ℤ value minimum

abbrev above : Option ℤ → ℤ → Bool
above none value = false
above (some maximum) value = ltb_ℤ maximum value

abbrev shorter : Option ℕ → ℕ → Bool
shorter none length = false
shorter (some minimum) length = ltb length minimum

abbrev longer : Option ℕ → ℕ → Bool
longer none length = false
longer (some maximum) length = ltb maximum length

abbrev shown_ℤ : Option ℤ → String
shown_ℤ none = "None"
shown_ℤ (some z) = integer_text z

abbrev shown : Option ℕ → String
shown none = "None"
shown (some n) = decimal n

validate_enum : ToolArgument → String → Value → Result String Value
validate_enum argument name (Value.text s) =
    if mem_text s argument.choices
    then ok (Value.text s)
    else err (f_string (name ∷ " must be one of: " ∷ join ", " argument.choices ∷ []))
validate_enum argument name _ =
    err (f_string (name ∷ " must be one of: " ∷ join ", " argument.choices ∷ []))

-- a `bool` is an `int` to Python, and is refused
validate_integer : ToolArgument → String → Value → Result String Value
validate_integer argument name (whole z) =
    if below argument.minimum z
    then err (f_string (name ∷ " cannot be below " ∷ shown_ℤ argument.minimum ∷ []))
    else if above argument.maximum z
    then err (f_string (name ∷ " cannot exceed " ∷ shown_ℤ argument.maximum ∷ []))
    else ok (whole z)
validate_integer argument name _ = err (f_string (name ∷ " must be a whole number" ∷ []))

validate_text : ToolArgument → String → Value → Result String Value
validate_text argument name (Value.text s) =
    let clean_value = strip s in
    if not (is_truthy clean_value)
    then err (f_string (name ∷ " cannot be empty" ∷ []))
    else if shorter argument.minimum_length (count clean_value)
    then err (
        f_string
          (name ∷ " must contain at least " ∷ shown argument.minimum_length ∷ " characters" ∷ []))
    else if longer argument.maximum_length (count clean_value)
    then err
        (f_string (name ∷ " cannot exceed " ∷ shown argument.maximum_length ∷ " characters" ∷ []))
    else if has_control clean_value
    then err (f_string (name ∷ " contains unsupported control characters" ∷ []))
    else ok (Value.text clean_value)
validate_text argument name _ = err (f_string (name ∷ " must be text" ∷ []))

validate_kind : ToolArgumentKind → ToolArgument → String → Value → Result String Value
validate_kind enum = validate_enum
validate_kind integer = validate_integer
validate_kind ToolArgumentKind.text = validate_text

-- `ToolArgument.validate`
unfoldable pub validate : ToolArgument → String → Value → Result String Value
unfolding validate_kind validate_enum validate_integer validate_text
validate argument name value = validate_kind argument.kind argument name value

abbrev pub Arguments : Type 0
Arguments = List (String × Value)

pub record AgentPlan : Type 0 where
  pub tool_name : Option String
  pub arguments : Arguments
  pub reason : String
  pub source : AgentPlanSource

pub record AgentTaskSnapshot : Type 0 where
  pub task_id : ℕ
  pub prompt : String
  pub status : AgentTaskStatus
  pub total_steps : ℕ
  pub completed_steps : ℕ
  pub current_tool : Option String
  pub message : String
  pub cancel_requested : Bool
  pub completed_messages : List String
  pub recovered : Bool
  pub interaction : Arguments

pub record ToolResult : Type 0 where
  pub tool_name : String
  pub status : ToolStatus
  pub message : String
  pub data_fields : Arguments
  pub duration_seconds : ℕ
